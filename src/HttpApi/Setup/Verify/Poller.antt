-- ===== src/HttpApi/Setup/Verify/Poller.antt =====
-- The background loop that verifies the primary domain: it ends once the record is there.
use selfu.Base.{
  ℕ, ◌+◌, ◌≤◌, ◌<◌, ◌≡◌, ◌⊎◌, inl, inr, refl, Bool, true, false, some, List, [], ◌∷◌, Text, text,
  ◌==◌, if◌then◌else◌, any, is_empty, length, Bool-cases, arith,
}
use selfu.Domain.Statuses.{DomainStatus, is_verified}
use selfu.Domain.Entities.{DomainRow}
use selfu.Store.State.{World, PollNote}
use selfu.Store.Exec.{Deps, tick}
use selfu.Store.Domains.{get_domain_by_id, log_verification}
use selfu.Store.Setup.{get_installation, onboarded}
use selfu.HttpApi.{Reply}
use selfu.HttpApi.Ownership.{txt_lookup}
use selfu.HttpApi.Setup.Verify.{
  SetupVerdict, complete, appraise, seek, settle, run_verify_setup, is_onboarded, note_verify_poll,
  note_of, poll_verification_once, verification_poller,
}
use selfu.HttpApi.Setup.Verify.Pending.{
  IsPrimary, IsPending, IsPrimary-world, set_domain_status-cases, set_installation_onboarded-cases,
  log_verification-world,
}
use selfu.HttpApi.Setup.Verify.Steps.{IsStep, IsStep-later, run_verify_setup-IsStep}

done-if :
    (b : Bool) (r s : Reply SetupVerdict × World)
    → b ≡ true
    → is_onboarded r.0 ≡ true
    → is_onboarded (if b then r else s).0 ≡ true
done-if true r s h done = done
done-if false r s h done = ground arith

module _ (name value : Text) (d : Deps) (from : ℕ) where
  -- From the call number `from` on no call fails, and lookups of the name answer the value.
  abbrev pub IsSteady : Type 0
  IsSteady =
      (d.has_txt_lookup ≡ true)
      × ((n : ℕ)
          → from ≤ n
          → (d.fails n ≡ false) × (any (λ t. t == value) (d.txt_records n name) ≡ true))

  module _ (steady : IsSteady) (actor_id : Text) (x : DomainRow) where
    complete-done :
        (w : World)
        → IsPrimary name value x w
        → from ≤ w.calls
        → is_onboarded (complete d actor_id x w).0 ≡ true
    unfolding complete
    complete-done w h late =
        elim (set_domain_status-cases name value d x DomainStatus.verified (some w.now) w h) [
          | inr (r, up) ↦ let still = (steady.1 w.calls late).0 in ground arith
          | inl (w1, r, h1, later) ↦
              let log = log_verification d x.id x.verification_method (text "verified") true w1 in
              let (i, rows, calls) =
                log_verification-world d x.id x.verification_method (text "verified") true w1 in
              elim (set_installation_onboarded-cases d w1.now log.1) [
                | inl (w3, s, o) ↦ rw (r, s) refl
                | inr (s, up) ↦
                    let still = (steady.1 log.1.calls (omega (arith, later, calls))).0 in
                    ground arith
              ]
        ]

    seek-done :
        (w : World)
        → IsPrimary name value x w
        → from ≤ w.calls
        → is_onboarded (seek d actor_id x w).0 ≡ true
    unfolding seek txt_lookup appraise IsPrimary
    seek-done w h late =
        let (pending, primary, found, n, v) = h in
        let (still, there) = steady.1 w.calls late in
        rw (still, n, v, there)
          (complete-done (tick w) (IsPrimary-world name value x w (tick w) refl refl h)
            (omega (arith, late)))

    settle-done :
        (w : World)
        → IsPrimary name value x w
        → from ≤ w.calls
        → is_onboarded (settle d actor_id x w).0 ≡ true
    unfolding settle
    settle-done w h late = elim (Bool-cases (is_verified x.status)) [
      | inl v ↦ elim (set_installation_onboarded-cases d w.now w) [
        | inl (w3, s, o) ↦ rw (v, s) refl
        | inr (s, up) ↦ let still = (steady.1 w.calls late).0 in ground arith
      ]
      | inr v ↦ rw v (done-if d.has_txt_lookup _ _ steady.0 (seek-done w h late))
    ]

  run_verify_setup-done :
      (steady : IsSteady) (actor_id : Text) (w : World)
      → IsPending name value w
      → from ≤ w.calls
      → is_onboarded (run_verify_setup d actor_id w).0 ≡ true
  unfolding run_verify_setup get_installation get_domain_by_id IsPending IsPrimary
  run_verify_setup-done steady actor_id w (x, h) late =
      let (pending, primary, found, n, v) = h in
      rw
        (
          (steady.1 w.calls late).0,
          pending,
          primary,
          (steady.1 (w.calls + 1) (omega (arith, late))).0,
          found,
        )
        (settle-done steady actor_id x (tick (tick w))
          (IsPrimary-world name value x w (tick (tick w)) refl refl h) (omega (arith, late)))

  IsPending-world :
      (w after : World)
      → after.installation ≡ w.installation
      → after.domains ≡ w.domains
      → IsPending name value w
      → IsPending name value after
  unfolding IsPending
  IsPending-world w after i rows (x, h) = (x, IsPrimary-world name value x w after i rows h)

  IsPending-flags :
      (w : World)
      → IsPending name value w
      → (onboarded w.installation ≡ false) × (is_empty w.installation.primary_domain_id ≡ false)
  unfolding IsPending IsPrimary
  IsPending-flags w (x, (pending, primary, found, n, v)) = (pending, primary)

  -- What a tick of the loop leaves
  IsTick : World → Bool × World → Type 0
  IsTick w (stop, after) =
      ((stop ≡ true) × (onboarded after.installation ≡ true))
      ⊎ ((stop ≡ false) × IsPending name value after × (w.calls < after.calls))

  IsTick-noted :
      (w : World) (r : Reply SetupVerdict × World)
      → IsStep name value w r
      → IsTick w (is_onboarded r.0, note_verify_poll (note_of r.0) r.1)
  unfolding IsStep IsTick note_verify_poll
  IsTick-noted w r (inl h) = inl h
  IsTick-noted w r (inr (more, h, calls)) =
      inr (more, IsPending-world r.1 (note_verify_poll (note_of r.0) r.1) refl refl h, calls)

  IsTick-free :
      (w after : World)
      → IsPending name value after
      → w.calls < after.calls
      → IsTick w (false, after)
  unfolding IsTick
  IsTick-free w after h calls = inr (refl, h, calls)

  poll-IsTick : (w : World) → IsPending name value w → IsTick w (poll_verification_once d w)
  unfolding poll_verification_once get_installation
  poll-IsTick w h =
      let start = IsPending-world w (tick w) refl refl h in
      let noted = note_verify_poll PollNote.lookup_failed (tick w) in
      let (pending, primary) = IsPending-flags w h in
      elim (Bool-cases (d.fails w.calls)) [
        | inl up ↦ rw up (
            IsTick-free w noted (unfold note_verify_poll in IsPending-world w noted refl refl h)
              (unfold note_verify_poll in omega arith))
        | inr up ↦
            rw (up, pending, primary)
              (IsTick-noted w (run_verify_setup d [] (tick w)) (
                IsStep-later name value w (tick w) (run_verify_setup d [] (tick w)) (omega arith)
                  (run_verify_setup-IsStep name value d [] (tick w) start)))
      ]

  poll-done :
      IsSteady
      → (w : World) → IsPending name value w
      → from ≤ w.calls
      → (poll_verification_once d w).0 ≡ true
  unfolding poll_verification_once get_installation
  poll-done steady w h late =
      let start = IsPending-world w (tick w) refl refl h in
      let (pending, primary) = IsPending-flags w h in
      rw ((steady.1 w.calls late).0, pending, primary)
        (run_verify_setup-done steady [] (tick w) start (omega (arith, late)))

  -- The installation waits for its record, calls may fail and the record may be missing at first.
  -- Once, from the call number `from` on, no call fails and the lookups of the record answer its
  -- value, the loop returns by itself within as many more ticks as calls were missing, and leaves the
  -- installation onboarded.
  pub verification_poller-ends :
      IsSteady
      → (at : ℕ) (ticks : List ℕ) (w : World) → IsPending name value w
      → from ≤ w.calls + length ticks
      → ((verification_poller d (at ∷ ticks) w).0 ≡ true)
        × (onboarded (verification_poller d (at ∷ ticks) w).1.installation ≡ true)
  unfolding verification_poller IsTick
  verification_poller-ends steady at [] w h enough =
      let start = record w { now = at } in
      let pending = IsPending-world w start refl refl h in
      let stops = poll-done steady start pending (omega (arith, enough)) in
      elim (poll-IsTick start pending) [
        | inl (stop, o) ↦ rw stop (refl, o)
        | inr (more, kept, calls) ↦ ground arith
      ]
  verification_poller-ends steady at (next ∷ ticks) w h enough =
      let start = record w { now = at } in
      let pending = IsPending-world w start refl refl h in
      let after = (poll_verification_once d start).1 in
      elim (poll-IsTick start pending) [
        | inl (stop, o) ↦ rw stop (refl, o)
        | inr (more, kept, calls) ↦
            rw more
              (verification_poller-ends steady next ticks after kept (omega (arith, enough, calls)))
      ]
