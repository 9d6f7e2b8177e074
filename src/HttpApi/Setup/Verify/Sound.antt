-- ===== src/HttpApi/Setup/Verify/Sound.antt =====
-- Nothing is onboarded without the record of the primary domain.
use selfu.Base.{
  ℕ, ◌+◌, ◌≡◌, ap, sym, ◌∙◌, refl, ◌⊎◌, inl, inr, true, false, Option, some, Text, text, ◌==◌, any,
  is_empty, Bool-cases, Option-cases, List, arith,
}
use selfu.Domain.Statuses.{DomainStatus, is_verified}
use selfu.Domain.Entities.{DomainRow}
use selfu.Store.State.{World, Installation}
use selfu.Store.Exec.{Deps, tick, Result-cases}
use selfu.Store.Exec.Tables.{find}
use selfu.Store.Domains.{get_domain_by_id, set_domain_status, log_verification}
use selfu.Store.Setup.{get_installation, onboarded}
use selfu.HttpApi.{Reply, json}
use selfu.HttpApi.Ownership.{verify_record_name, token_txt_value, txt_lookup}
use selfu.HttpApi.Ownership.Judged.{IsOneOf, any-IsOneOf}
use selfu.HttpApi.Setup.Verify.{
  SetupVerdict, done, is_onboarded, complete, appraise, seek, settle, run_verify_setup,
}
use selfu.HttpApi.Setup.Verify.Pending.{
  set_installation_onboarded-cases, audit-installation, log_verification-world,
}

-- The domain was verified before, or one of the TXT records that the n-th call answered for the name of
-- its verification record is the text of its own token.
abbrev pub IsProven : Deps → ℕ → DomainRow → Type 0
IsProven d n x =
    (is_verified x.status ≡ true)
    ⊎ IsOneOf (token_txt_value x.verification_token) (d.txt_records n (verify_record_name x.fqdn))

-- An attempt is done, which it may be only if P holds, or it says that it is not and leaves the
-- installation as it was.
data IsOutcome (P : Type 0) (i : Installation) (r : Reply SetupVerdict × World) : Type 0 where
  finished : r.0 ≡ json 200 done → onboarded r.1.installation ≡ true → P → IsOutcome P i r
  open_still : is_onboarded r.0 ≡ false → r.1.installation ≡ i → IsOutcome P i r

apart : ¬ (false ≡ true)
apart h = cc

IsOutcome-weaken :
    {P Q : Type 0} {i : Installation} {r : Reply SetupVerdict × World}
    → (P → Q)
    → IsOutcome P i r
    → IsOutcome Q i r
IsOutcome-weaken f (finished said now p) = IsOutcome.finished said now (f p)
IsOutcome-weaken f (open_still said kept) = IsOutcome.open_still said kept

set_domain_status-installation :
    (d : Deps) (id : Text) (status : DomainStatus) (at : Option ℕ) (w : World)
    → (set_domain_status d id status at w).1.installation ≡ w.installation
unfolding set_domain_status
set_domain_status-installation d id status at w = ground arith

module _ (d : Deps) (actor_id : Text) (x : DomainRow) where
  complete-IsOutcome :
      (P : Type 0) (w : World) → P → IsOutcome P w.installation (complete d actor_id x w)
  unfolding complete
  complete-IsOutcome P w p =
      let same = set_domain_status-installation d x.id DomainStatus.verified (some w.now) w in
      elim (Result-cases (set_domain_status d x.id DomainStatus.verified (some w.now) w)) [
        | inr (e, w1, r) ↦ rw r (IsOutcome.open_still refl (rw r at same))
        | inl (u, w1, r) ↦
            let log = log_verification d x.id x.verification_method (text "verified") true w1 in
            let logged =
              (log_verification-world d x.id x.verification_method (text "verified") true w1).0 in
            let same' : w1.installation ≡ w.installation = rw r at same in
            elim (set_installation_onboarded-cases d w1.now log.1) [
              | inr (s, up) ↦ rw (r, s) (IsOutcome.open_still refl (logged ∙ same'))
              | inl (w2, s, o) ↦ rw (r, s) (IsOutcome.finished refl (rw audit-installation o) p)
            ]
      ]

  appraise-IsOutcome :
      (txts : List Text) (w : World)
      → IsOutcome
          (IsOneOf (token_txt_value x.verification_token) txts)
          w.installation
          (appraise d actor_id x txts w)
  unfolding appraise
  appraise-IsOutcome txts w =
      let logged =
        (log_verification-world d x.id x.verification_method (text "record not found") false w).0 in
      elim (Bool-cases (any (λ t. t == token_txt_value x.verification_token) txts)) [
        | inl e ↦ rw e (complete-IsOutcome _ w (any-IsOneOf _ txts e))
        | inr e ↦ rw e (IsOutcome.open_still refl logged)
      ]

  seek-IsOutcome :
      (w : World)
      → IsOutcome
          (IsOneOf
            (token_txt_value x.verification_token)
            (d.txt_records w.calls (verify_record_name x.fqdn)))
          w.installation
          (seek d actor_id x w)
  unfolding seek txt_lookup
  seek-IsOutcome w =
      let logged =
        (log_verification-world d x.id x.verification_method (text "lookup failed") false
          (tick w)).0 in
      elim (Bool-cases (d.fails w.calls)) [
        | inl up ↦ rw up (IsOutcome.open_still refl logged)
        | inr up ↦
            rw up (appraise-IsOutcome (d.txt_records w.calls (verify_record_name x.fqdn)) (tick w))
      ]

  settle-IsOutcome :
      (w : World) → IsOutcome (IsProven d w.calls x) w.installation (settle d actor_id x w)
  unfolding settle
  settle-IsOutcome w = elim (Bool-cases (is_verified x.status)) [
    | inl e ↦ elim (set_installation_onboarded-cases d w.now w) [
      | inr (s, up) ↦ rw (e, s) (IsOutcome.open_still refl refl)
      | inl (w2, s, now) ↦ rw (e, s) (IsOutcome.finished refl now (inl refl))
    ]
    | inr e ↦ elim (Bool-cases d.has_txt_lookup) [
      | inl k ↦ simp (e, k) (IsOutcome-weaken inr (seek-IsOutcome w))
      | inr k ↦ simp (e, k) (IsOutcome.open_still refl refl)
    ]
  ]

-- What is needed of the state, and of the lookups, to be onboarded by an attempt
abbrev pub IsEntitled : Deps → World → Type 0
IsEntitled d w =
    (onboarded w.installation ≡ false)
    × ((x : DomainRow) × (find (λ y. y.id == w.installation.primary_domain_id) w.domains ≡ some x)
        × IsProven d (w.calls + 1 + 1) x)

module _ (d : Deps) (actor_id : Text) (w : World) where
  run_verify_setup-IsOutcome :
      IsOutcome (IsEntitled d w) w.installation (run_verify_setup d actor_id w)
  unfolding run_verify_setup get_installation get_domain_by_id
  run_verify_setup-IsOutcome = elim (Bool-cases (d.fails w.calls)) [
    | inl up ↦ rw up (IsOutcome.open_still refl refl)
    | inr up ↦ elim (Bool-cases (onboarded w.installation)) [
      | inl e ↦ rw (up, e) (IsOutcome.open_still refl refl)
      | inr e ↦ elim (Bool-cases (is_empty w.installation.primary_domain_id)) [
        | inl p ↦ rw (up, e, p) (IsOutcome.open_still refl refl)
        | inr p ↦ elim (Bool-cases (d.fails (w.calls + 1))) [
          | inl up' ↦ rw (up, e, p, up') (IsOutcome.open_still refl refl)
          | inr up' ↦
              elim (Option-cases (find (λ y. y.id == w.installation.primary_domain_id) w.domains)) [
                | inl f ↦ rw (up, e, p, up', f) (IsOutcome.open_still refl refl)
                | inr (x, f) ↦
                    rw (up, e, p, up', f)
                      (IsOutcome-weaken (λ proven. (refl, (x, refl, proven)))
                        (settle-IsOutcome d actor_id x (tick (tick w))))
              ]
        ]
      ]
    ]
  ]

  -- An attempt that onboards an installation that was not, or whose reply says that it is onboarded,
  -- found an installation that was not and its primary domain, which had been verified before or whose
  -- own token is among the TXT records that the lookup of this attempt, its third call, answered for
  -- the name of its verification record. The installation is onboarded afterwards, and the reply says
  -- so.
  pub run_verify_setup-record :
      (after : World) (reply : Reply SetupVerdict)
      → run_verify_setup d actor_id w ≡ (reply, after)
      → ((onboarded w.installation ≡ false) × (onboarded after.installation ≡ true))
        ⊎ (is_onboarded reply ≡ true)
      → IsEntitled d w × (onboarded after.installation ≡ true) × (reply ≡ json 200 done)
  run_verify_setup-record after reply h why = go (rw h at run_verify_setup-IsOutcome) why
    where
      go :
          IsOutcome (IsEntitled d w) w.installation (reply, after)
          → ((onboarded w.installation ≡ false) × (onboarded after.installation ≡ true))
            ⊎ (is_onboarded reply ≡ true)
          → IsEntitled d w × (onboarded after.installation ≡ true) × (reply ≡ json 200 done)
      go (finished said now entitled) why = (entitled, now, said)
      go (open_still said kept) (inl (off, now)) =
          absurd (apart (sym off ∙ sym (ap onboarded kept) ∙ now))
      go (open_still said kept) (inr says) = absurd (apart (sym said ∙ says))
