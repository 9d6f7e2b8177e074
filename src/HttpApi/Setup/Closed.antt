-- ===== src/HttpApi/Setup/Closed.antt =====
-- The wizard after the installation is onboarded.
use selfu.Base.{
  ◌+◌, ◌≡◌, ap, none, ◌∙◌, inl, inr, refl, true, Option, List, [], ◌∷◌, Text, Bool-cases,
}
use selfu.Domain.Entities.{User}
use selfu.Store.State.{World}
use selfu.Store.Exec.{Deps}
use selfu.Store.Users.{admin_count}
use selfu.Store.Setup.{get_installation, onboarded}
use selfu.HttpApi.Setup.Limiter.{Client}
use selfu.HttpApi.Setup.Login.{LoginConfig, setup_login}
use selfu.HttpApi.Setup.Verify.{
  run_verify_setup, verify_setup, poll_verification_once, note_verify_poll,
}
use selfu.HttpApi.Setup.Create.{SetupConfig, SetupRequest, create_setup}
use selfu.HttpApi.Setup.Status.{setup_status}

-- A request to the wizard, or a tick of the background loop
pub data SetupEvent : Type 0 where
  login : Client → Option Text → SetupEvent
  look : SetupEvent
  create : User → Option SetupRequest → SetupEvent
  verify : User → SetupEvent
  poll : SetupEvent

module _ (d : Deps) (c : LoginConfig) (s : SetupConfig) where
  unfoldable pub serve_setup : SetupEvent → World → World
  unfolding setup_login setup_status create_setup verify_setup poll_verification_once
  serve_setup (SetupEvent.login from body) w = (setup_login d c from body w).1
  serve_setup SetupEvent.look w = (setup_status d c.bootstrap_email w).1
  serve_setup (SetupEvent.create admin body) w = (create_setup d s admin body w).1
  serve_setup (SetupEvent.verify admin) w = (verify_setup d admin w).1
  serve_setup SetupEvent.poll w = (poll_verification_once d w).1

  unfoldable pub serve_setups : List SetupEvent → World → World
  unfolding serve_setup
  serve_setups [] w = w
  serve_setups (e ∷ events) w = serve_setups events (serve_setup e w)

-- Only counters, and what the loop notes, differ.
unfoldable pub settled : World → World
settled w = record w { calls = 0; last_verify = none }

settled-installation :
    (after w : World) → settled after ≡ settled w → after.installation ≡ w.installation
unfolding settled
settled-installation after w h = ap (λ x. x.installation) h

module _ (d : Deps) (c : LoginConfig) (s : SetupConfig) (w : World)
    (o : onboarded w.installation ≡ true) where
  login-settled :
      (from : Client) (body : Option Text) → settled (setup_login d c from body w).1 ≡ settled w
  unfolding settled setup_login get_installation
  login-settled from body = elim (Bool-cases (d.fails w.calls)) [
    | inl up ↦ rw up refl
    | inr up ↦ rw (up, o) refl
  ]

  look-settled : settled (setup_status d c.bootstrap_email w).1 ≡ settled w
  unfolding settled setup_status get_installation admin_count
  look-settled = elim (Bool-cases (d.fails w.calls)) [
    | inl up ↦ rw up refl
    | inr up ↦ elim (Bool-cases (d.fails (w.calls + 1))) [
      | inl up' ↦ rw (up, up') refl
      | inr up' ↦ rw (up, up', o) refl
    ]
  ]

  create-settled :
      (admin : User) (body : Option SetupRequest)
      → settled (create_setup d s admin body w).1 ≡ settled w
  unfolding settled create_setup get_installation
  create-settled admin body = elim (Bool-cases admin.is_admin) [
    | inr a ↦ simp a refl
    | inl a ↦ elim (Bool-cases (d.fails w.calls)) [
      | inl up ↦ simp (a, up) refl
      | inr up ↦ simp (a, up, o) refl
    ]
  ]

  run-settled : (actor_id : Text) → settled (run_verify_setup d actor_id w).1 ≡ settled w
  unfolding settled run_verify_setup get_installation
  run-settled actor_id = elim (Bool-cases (d.fails w.calls)) [
    | inl up ↦ rw up refl
    | inr up ↦ rw (up, o) refl
  ]

  verify-settled : (admin : User) → settled (verify_setup d admin w).1 ≡ settled w
  unfolding verify_setup
  verify-settled admin = elim (Bool-cases admin.is_admin) [
    | inr a ↦ simp a refl
    | inl a ↦ simp a (run-settled admin.id)
  ]

  poll-settled : settled (poll_verification_once d w).1 ≡ settled w
  unfolding settled poll_verification_once get_installation note_verify_poll
  poll-settled = elim (Bool-cases (d.fails w.calls)) [
    | inl up ↦ rw up refl
    | inr up ↦ rw (up, o) refl
  ]

  serve_setup-settled : (e : SetupEvent) → settled (serve_setup d c s e w) ≡ settled w
  unfolding serve_setup
  serve_setup-settled (SetupEvent.login from body) = login-settled from body
  serve_setup-settled SetupEvent.look = look-settled
  serve_setup-settled (SetupEvent.create admin body) = create-settled admin body
  serve_setup-settled (SetupEvent.verify admin) = verify-settled admin
  serve_setup-settled SetupEvent.poll = poll-settled

module _ (d : Deps) (c : LoginConfig) (s : SetupConfig) where
  -- Once the installation is onboarded, no sequence of requests to the wizard and of ticks of its
  -- loop changes anything but the count of calls and what the loop noted last: no user is created or
  -- made an admin by the bootstrap login, and the installation, its domains and its credentials stay.
  pub serve_setups-closed :
      (events : List SetupEvent) (w : World)
      → onboarded w.installation ≡ true
      → settled (serve_setups d c s events w) ≡ settled w
  unfolding serve_setups
  serve_setups-closed [] w o = refl
  serve_setups-closed (e ∷ events) w o =
      let once = serve_setup-settled d c s w o e in
      let still : onboarded (serve_setup d c s e w).installation ≡ true =
        rw (settled-installation (serve_setup d c s e w) w once) o in
      serve_setups-closed events (serve_setup d c s e w) still ∙ once
