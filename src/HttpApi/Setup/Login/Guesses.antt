-- ===== src/HttpApi/Setup/Login/Guesses.antt =====
-- How often a client can try passwords on `setupLogin`, and who gets in.
use selfu.Base.{
  ℕ, ◌+◌, ◌≤◌, ◌≡◌, ◌≢◌, ap, sym, ◌∙◌, ◌⊎◌, inl, inr, refl, Bool, true, false, ◌&&◌, Option, none,
  some, List, [], ◌∷◌, Text, ◌==◌, ==_iff, if◌then◌else◌, eqb, is_empty, All, Bool-cases,
  Option-cases, arith,
}
use selfu.Store.State.{World, Installation}
use selfu.Store.Exec.{Deps, tick}
use selfu.Store.Users.{upsert_from_oidc, upsert_row, grant_admin_if_none, set_users}
use selfu.Store.Setup.{get_installation, onboarded}
use selfu.HttpApi.{Reply, problem, json, audit, problem-ne_json}
use selfu.HttpApi.Setup.Limiter.{
  Client, client_key, put, allow, allowed, record_fail, reset, bumped, minute, spare, spare-bumped,
  spare-bound,
}
use selfu.HttpApi.Setup.Login.{
  LoginConfig, LoggedIn, set_login_fails, setup_login, guess, deny, sign_in,
}

module _ (d : Deps) (c : LoginConfig) where
  -- Somebody is let in only on an installation that is not onboarded yet, with the configured
  -- bootstrap password, which is not empty, and as long as the limiter allows the client a guess.
  pub setup_login-json :
      (from : Client) (body : Option Text) (w w' : World) (status : ℕ) (v : LoggedIn)
      → setup_login d c from body w ≡ (json status v, w')
      → (onboarded w.installation ≡ false)
        × (is_empty c.bootstrap_password ≡ false)
        × (body ≡ some c.bootstrap_password)
        × (allow w.login_fails w.now (client_key c.split_host_port from) ≡ true)
  unfolding setup_login guess deny get_installation
  setup_login-json from body w w' status v h = elim (Bool-cases (d.fails w.calls)) [
    | inl up ↦ absurd (problem-ne_json (rw up at h))
    | inr up ↦ elim (Bool-cases (onboarded w.installation)) [
      | inl o ↦ absurd (problem-ne_json (rw (up, o) at h))
      | inr o ↦ elim (Bool-cases (is_empty c.bootstrap_password)) [
        | inl e ↦ absurd (problem-ne_json (rw (up, o, e) at h))
        | inr e ↦ elim (Option-cases body) [
          | inl b ↦ absurd (problem-ne_json (rw (up, o, e, b) at h))
          | inr (password, b) ↦
              elim (Bool-cases (allow w.login_fails w.now (client_key c.split_host_port from))) [
                | inr a ↦ absurd (problem-ne_json (rw (up, o, e, b, a) at h))
                | inl a ↦ elim (Bool-cases (c.bootstrap_password == password)) [
                  | inr p ↦ absurd (problem-ne_json (rw (up, o, e, b, a, p) at h))
                  | inl p ↦ (o, e, rw (b, (==_iff c.bootstrap_password password).0 p) refl, a)
                ]
              ]
        ]
      ]
    ]
  ]

-- A request to log in, and the time at which it comes
pub record Attempt : Type 0 where
  pub at : ℕ
  pub from : Client
  pub body : Option Text

abbrev pub is_unauthorized {ℓ} : {A : Type ℓ} → Reply A → Bool
is_unauthorized (problem status code) = eqb status 401
is_unauthorized (json status a) = false

and_false : (b : Bool) → (b && false) ≡ false
and_false true = refl
and_false false = refl

module _ (d : Deps) (c : LoginConfig) (k : Text) where
  abbrev pub key_of : Client → Text
  key_of = client_key c.split_host_port

  -- How many of the attempts of the client `k` are answered that the password is wrong.
  unfoldable pub wrong_guesses : List Attempt → World → ℕ
  unfolding setup_login
  wrong_guesses [] w = 0
  wrong_guesses (a ∷ rest) w =
      let (reply, after) = setup_login d c a.from a.body (record w { now = a.at }) in
      let later = wrong_guesses rest after in
      if is_unauthorized reply && key_of a.from == k then later + 1 else later

  -- The answer leaves the count of `k` alone, or it is a wrong guess of `k` that was counted.
  IsCounted : Text → World → Reply LoggedIn × World → Type 0
  IsCounted key w (reply, after) =
      (((is_unauthorized reply && key == k) ≡ false) × (after.login_fails k ≡ w.login_fails k))
      ⊎ (((is_unauthorized reply && key == k) ≡ true)
          × (allowed w.now (w.login_fails k) ≡ true)
          × (after.login_fails k ≡ some (bumped w.now (w.login_fails k))))

  deny-login_fails :
      (key : Text) (w : World)
      → (deny d c key w).1.login_fails ≡ record_fail w.login_fails w.now key
  unfolding deny set_login_fails audit
  deny-login_fails key w = ground arith

  deny-IsCounted :
      (key : Text) (w : World)
      → allow w.login_fails w.now key ≡ true
      → IsCounted key w (deny d c key w)
  unfolding IsCounted deny record_fail allow put
  deny-IsCounted key w a = elim (Bool-cases (key == k)) [
    | inl e ↦
        let same = (==_iff key k).0 e in
        inr (rw e refl, rw same at a, rw (deny-login_fails key w, e, same) refl)
    | inr e ↦ inl (rw e refl, rw (deny-login_fails key w, e) refl)
  ]

  sign_in-login_fails :
      (inst : Installation) (key : Text) (w : World)
      → (sign_in d c inst key w).1.login_fails ≡ reset key w.login_fails
  unfolding sign_in set_login_fails audit upsert_from_oidc upsert_row grant_admin_if_none set_users
  sign_in-login_fails inst key w = ground arith

  sign_in-IsCounted :
      (inst : Installation) (key : Text) (w : World)
      → key == k ≡ false
      → IsCounted key w (sign_in d c inst key w)
  unfolding IsCounted reset put
  sign_in-IsCounted inst key w other =
      inl (rw (other, and_false _) refl, rw (sign_in-login_fails inst key w, other) refl)

  wrong_password : (p : Text) → p ≢ c.bootstrap_password → c.bootstrap_password == p ≡ false
  wrong_password p ne = elim (Bool-cases (c.bootstrap_password == p)) [
    | inl e ↦ absurd (ne (sym ((==_iff c.bootstrap_password p).0 e)))
    | inr e ↦ e
  ]

  guess-IsCounted :
      (inst : Installation) (key password : Text) (w : World)
      → (key == k ≡ false) ⊎ (c.bootstrap_password == password ≡ false)
      → IsCounted key w (guess d c inst key password w)
  unfolding IsCounted guess
  guess-IsCounted inst key password w wrong = elim (Bool-cases (allow w.login_fails w.now key)) [
    | inr a ↦ rw a (inl (refl, refl))
    | inl a ↦ elim (Bool-cases (c.bootstrap_password == password)) [
      | inr p ↦ rw (a, p) (deny-IsCounted key w a)
      | inl p ↦ elim wrong [
        | inl other ↦ rw (a, p) (sign_in-IsCounted inst key w other)
        | inr q ↦ ground arith
      ]
    ]
  ]

  setup_login-IsCounted :
      (from : Client) (body : Option Text) (w : World)
      → (key_of from == k ≡ false) ⊎ (body ≢ some c.bootstrap_password)
      → IsCounted (key_of from) w (setup_login d c from body w)
  unfolding IsCounted setup_login get_installation
  setup_login-IsCounted from body w wrong = elim (Bool-cases (d.fails w.calls)) [
    | inl up ↦ rw up (inl (refl, refl))
    | inr up ↦ elim (Bool-cases (onboarded w.installation)) [
      | inl o ↦ rw (up, o) (inl (refl, refl))
      | inr o ↦ elim (Bool-cases (is_empty c.bootstrap_password)) [
        | inl e ↦ rw (up, o, e) (inl (refl, refl))
        | inr e ↦ elim (Option-cases body) [
          | inl b ↦ rw (up, o, e, b) (inl (refl, refl))
          | inr (password, b) ↦
              rw (up, o, e, b)
                (guess-IsCounted w.installation (key_of from) password (tick w) (elim wrong [
                  | inl other ↦ inl other
                  | inr ne ↦ inr (wrong_password password (λ q. ne (b ∙ ap some q)))
                ]))
        ]
      ]
    ]
  ]

  -- An attempt at a time of the span, which, if it is `k`'s, does not have the password
  unfoldable pub IsWrong : ℕ → Attempt → Type 0
  IsWrong since a =
      (since ≤ a.at)
      × (a.at ≤ since + minute)
      × ((key_of a.from == k ≡ false) ⊎ (a.body ≢ some c.bootstrap_password))

  wrong_guesses-spare :
      (since : ℕ) (attempts : List Attempt) (w : World)
      → All (IsWrong since) attempts
      → wrong_guesses attempts w ≤ spare since (w.login_fails k)
  unfolding wrong_guesses IsCounted IsWrong
  wrong_guesses-spare since [] w h = omega arith
  wrong_guesses-spare since (a ∷ rest) w ((lo, hi, wrong), h) =
      let start = record w { now = a.at } in
      let after = setup_login d c a.from a.body start in
      let more = wrong_guesses-spare since rest after.1 h in
      elim (setup_login-IsCounted a.from a.body start wrong) [
        | inl (free, kept) ↦ rw free (rw kept at more)
        | inr (one, ok, counted) ↦
            let used = spare-bumped since a.at (w.login_fails k) lo hi ok in
            let more : wrong_guesses rest after.1
                ≤ spare since (some (bumped a.at (w.login_fails k))) =
              rw counted at more in
            rw one (omega (arith, used, more))
      ]

  -- Whatever other clients do in between, and whatever was counted before, the attempts of a client
  -- without the password that come within a minute are compared with it at most 20 times, and at
  -- most 10 times if no failure of the client is remembered at the start.
  pub wrong_guesses-bound :
      (since : ℕ) (attempts : List Attempt) (w : World)
      → All (IsWrong since) attempts
      → (wrong_guesses attempts w ≤ 20) × (w.login_fails k ≡ none → wrong_guesses attempts w ≤ 10)
  wrong_guesses-bound since attempts w h =
      let less = wrong_guesses-spare since attempts w h in
      (omega (arith, less, spare-bound since (w.login_fails k)), λ e. rw e at less)
