-- ===== src/HttpApi/Setup/Verify/Steps.antt =====
-- What one attempt to verify the primary domain leaves: the installation is onboarded, or all that a
-- later attempt needs is as before.
use selfu.Base.{
  ℕ, ◌+◌, ◌≤◌, ◌<◌, ◌≡◌, ◌⊎◌, inl, inr, refl, Bool, true, false, some, List, Text, text, String,
  ◌==◌, if◌then◌else◌, any, Bool-cases, arith,
}
use selfu.Domain.Statuses.{DomainStatus, is_verified}
use selfu.Domain.Entities.{DomainRow}
use selfu.Store.State.{World}
use selfu.Store.Exec.{Deps, tick}
use selfu.Store.Domains.{get_domain_by_id, log_verification}
use selfu.Store.Setup.{get_installation, onboarded}
use selfu.HttpApi.{Reply, problem, internal_error}
use selfu.HttpApi.Ownership.{verify_record_name, token_txt_value, txt_lookup}
use selfu.HttpApi.Setup.Verify.Pending.{
  IsPrimary, IsPending, IsPrimary-world, log_verification-world, audit-installation,
  set_installation_onboarded-cases, set_domain_status-cases,
}
use selfu.HttpApi.Setup.Verify.{
  SetupVerdict, complete, appraise, seek, settle, run_verify_setup, is_onboarded,
}

module _ (name value : Text) where
  -- What an attempt leaves: it is done, or all is as before, and calls were made.
  unfoldable pub IsStep : World → Reply SetupVerdict × World → Type 0
  IsStep w (reply, after) =
      ((is_onboarded reply ≡ true) × (onboarded after.installation ≡ true))
      ⊎ ((is_onboarded reply ≡ false) × IsPending name value after × (w.calls < after.calls))

  pub IsStep-later :
      (w w1 : World) (r : Reply SetupVerdict × World)
      → w.calls ≤ w1.calls
      → IsStep w1 r
      → IsStep w r
  unfolding IsStep
  IsStep-later w w1 r h (inl z) = inl z
  IsStep-later w w1 r h (inr (more, kept, calls)) = inr (more, kept, omega (arith, h, calls))

  IsStep-if :
      (b : Bool) (w : World) (r s : Reply SetupVerdict × World)
      → IsStep w r
      → IsStep w s
      → IsStep w (if b then r else s)
  IsStep-if true w r s hr hs = hr
  IsStep-if false w r s hr hs = hs

  module _ (d : Deps) (actor_id : Text) (x : DomainRow) where
    complete-IsStep : (w : World) → IsPrimary name value x w → IsStep w (complete d actor_id x w)
    unfolding IsStep IsPending complete
    complete-IsStep w h =
        elim (set_domain_status-cases name value d x DomainStatus.verified (some w.now) w h) [
          | inr (r, up) ↦
              rw r
                (inr (refl, (x, IsPrimary-world name value x w (tick w) refl refl h), omega arith))
          | inl (w1, r, h1, later) ↦
              let log = log_verification d x.id x.verification_method (text "verified") true w1 in
              let (i, rows, calls) =
                log_verification-world d x.id x.verification_method (text "verified") true w1 in
              elim (set_installation_onboarded-cases d w1.now log.1) [
                | inl (w3, s, o) ↦ rw (r, s) (inl (refl, rw audit-installation o))
                | inr (s, up) ↦
                    rw (r, s)
                      (inr (
                        refl,
                        (_, IsPrimary-world name value _ w1 (tick log.1) i rows h1),
                        omega (arith, later, calls),
                      ))
              ]
        ]

    appraise-IsStep :
        (txts : List Text) (w : World)
        → IsPrimary name value x w
        → IsStep w (appraise d actor_id x txts w)
    unfolding IsStep IsPending appraise
    appraise-IsStep txts w h =
        let log = log_verification d x.id x.verification_method (text "record not found") false w in
        let (i, rows, calls) =
          log_verification-world d x.id x.verification_method (text "record not found") false w in
        elim (Bool-cases (any (λ t. t == token_txt_value x.verification_token) txts)) [
          | inl v ↦ rw v (complete-IsStep w h)
          | inr v ↦
              rw v (
                inr
                  (refl, (x, IsPrimary-world name value x w log.1 i rows h), omega (arith, calls)))
        ]

    seek-IsStep : (w : World) → IsPrimary name value x w → IsStep w (seek d actor_id x w)
    unfolding seek txt_lookup
    seek-IsStep w h =
        let start = IsPrimary-world name value x w (tick w) refl refl h in
        let log =
          log_verification d x.id x.verification_method (text "lookup failed") false (tick w) in
        let (i, rows, calls) =
          log_verification-world d x.id x.verification_method (text "lookup failed") false
            (tick w) in
        elim (Bool-cases (d.fails w.calls)) [
          | inl up ↦
              unfold IsStep IsPending in
              rw up (
                inr
                  (refl, (x, IsPrimary-world name value x w log.1 i rows h), omega (arith, calls)))
          | inr up ↦
              let txts = d.txt_records w.calls (verify_record_name x.fqdn) in
              rw up (
                IsStep-later w (tick w) (appraise d actor_id x txts (tick w)) (omega arith)
                  (appraise-IsStep txts (tick w) start))
        ]

    unanswered :
        (status : ℕ) (code : String) (w after : World)
        → IsPrimary name value x after
        → w.calls < after.calls
        → IsStep w (problem status code, after)
    unfolding IsStep IsPending
    unanswered status code w after h calls = inr (refl, (x, h), calls)

    settle-IsStep :
        (w after : World)
        → w.calls < after.calls
        → IsPrimary name value x after
        → IsStep w (settle d actor_id x after)
    unfolding settle
    settle-IsStep w after calls h = elim (Bool-cases (is_verified x.status)) [
      | inl v ↦ elim (set_installation_onboarded-cases d after.now after) [
        | inl (last, s, o) ↦ rw (v, s) (unfold IsStep in inl (refl, o))
        | inr (s, up) ↦
            rw (v, s)
              (unanswered 500 "internal_error" w (tick after)
                (IsPrimary-world name value x after (tick after) refl refl h)
                (omega (arith, calls)))
      ]
      | inr v ↦ rw v (
          IsStep-if d.has_txt_lookup w (seek d actor_id x after) (internal_error after)
            (IsStep-later w after (seek d actor_id x after) (omega (arith, calls))
              (seek-IsStep after h))
            (unanswered 500 "internal_error" w after h calls))
    ]

  module _ (d : Deps) (actor_id : Text) where
    pub run_verify_setup-IsStep :
        (w : World) → IsPending name value w → IsStep w (run_verify_setup d actor_id w)
    unfolding run_verify_setup get_installation get_domain_by_id IsPending IsPrimary
    run_verify_setup-IsStep w (x, h) =
        let once = IsPrimary-world name value x w (tick w) refl refl h in
        let twice = IsPrimary-world name value x w (tick (tick w)) refl refl h in
        let (pending, primary, found, n, v) = h in
        elim (Bool-cases (d.fails w.calls)) [
          | inl up ↦
              rw up (unanswered d actor_id x 500 "internal_error" w (tick w) once (omega arith))
          | inr up ↦ elim (Bool-cases (d.fails (w.calls + 1))) [
            | inl up' ↦
                rw (up, pending, primary, up')
                  (unanswered d actor_id x 404 "not_found" w (tick (tick w)) twice (omega arith))
            | inr up' ↦
                rw (up, pending, primary, up', found)
                  (settle-IsStep d actor_id x w (tick (tick w)) (omega arith) twice)
          ]
        ]
