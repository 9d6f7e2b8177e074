-- ===== src/HttpApi/Ownership/Judged.antt =====
-- What the part of `verifyDomain` behind its guard does to the table of domains.
use selfu.Base.{
  text, ℕ, Bool, none, refl, ◌≡◌, ◌⊎◌, inl, inr, ap, ◌∙◌, true, false, some, List, [], ◌∷◌, arith,
  Bool-cases, Text, ◌==◌, ==_iff, any,
}
use selfu.Domain.Statuses.{DomainStatus}
use selfu.Domain.Entities.{User, DomainRow}
use selfu.Store.State.{World}
use selfu.Store.Exec.{Deps, tick, got, fails, StoreError, failed, not_found}
use selfu.Store.Exec.Tables.{update_where, exists}
use selfu.Store.Domains.{set_domain_status, log_verification, set_domains}
use selfu.HttpApi.{Reply, problem, json}
use selfu.HttpApi.Frames.{audit-world}
use selfu.HttpApi.Ownership.{
  Verdict, missing_verdict, judge, txt_lookup, verify_record_name, token_txt_value, look_up,
}

-- The text is one of the list.
abbrev pub IsOneOf : Text → List Text → Type 0
IsOneOf t [] = ⊥
IsOneOf t (u ∷ us) = (u ≡ t) ⊎ IsOneOf t us

pub any-IsOneOf : (t : Text) (us : List Text) → any (λ u. u == t) us ≡ true → IsOneOf t us
any-IsOneOf t [] h = cc
any-IsOneOf t (u ∷ us) h = elim (Bool-cases (u == t)) [
  | inl e ↦ inl ((==_iff u t).0 e)
  | inr e ↦ let more : any (λ u. u == t) us ≡ true = ground arith in inr (any-IsOneOf t us more)
]

-- The reply after the record was found
abbrev pub proven_verdict : Verdict
proven_verdict = record { status = DomainStatus.verified; verified = none; hint = none }

-- A reply that does not say that the record was missing, and is no error
abbrev pub says_proven : Reply Verdict → Bool
says_proven (problem status code) = false
says_proven (json status v) = elim v.verified [ none ↦ true | some b ↦ b ]

-- The table with the row of the id verified at the given time
abbrev pub verified_at : Text → ℕ → List DomainRow → List DomainRow
verified_at id now =
    update_where (λ y. y.id == id)
      (λ y. record y { status = DomainStatus.verified; verified_at = some now })

-- A request verifies the domain, which it may only if P holds, or it leaves the table as it is and does
-- not say that the domain was proven.
pub data IsJudged (P : Type 0) (id : Text) (w : World) (r : Reply Verdict × World) : Type 0 where
  proven :
      r.0 ≡ json 200 proven_verdict
      → r.1.domains ≡ verified_at id w.now w.domains
      → P
      → IsJudged P id w r
  unproven : says_proven r.0 ≡ false → r.1.domains ≡ w.domains → IsJudged P id w r

pub IsJudged-later :
    {P Q : Type 0} {id : Text} {w w1 : World} {r : Reply Verdict × World}
    → w1.domains ≡ w.domains
    → w1.now ≡ w.now
    → (P → Q)
    → IsJudged P id w1 r
    → IsJudged Q id w r
IsJudged-later {id = id} {w = w} {w1 = w1} rows now f (proven said marked p) =
    IsJudged.proven said
      (marked ∙ ap (λ t. verified_at id t w1.domains) now ∙ ap (verified_at id w.now) rows) (f p)
IsJudged-later rows now f (unproven said kept) = IsJudged.unproven said (kept ∙ rows)

pub apart : ¬ (false ≡ true)
apart h = cc

log_verification-domains :
    (d : Deps) (id method detail : Text) (success : Bool) (w : World)
    → (log_verification d id method detail success w).1.domains ≡ w.domains
unfolding log_verification
log_verification-domains d id method detail success w = ground arith

set_domain_status-cases :
    (d : Deps) (id : Text) (w : World)
    → ((after : World) × (set_domain_status d id DomainStatus.verified (some w.now) w
          ≡ (got tt, after))
        × (after.domains ≡ verified_at id w.now w.domains))
      ⊎ ((e : StoreError) × (set_domain_status d id DomainStatus.verified (some w.now) w
            ≡ (fails e, tick w)))
unfolding set_domain_status set_domains
set_domain_status-cases d id w = elim (Bool-cases (d.fails w.calls)) [
  | inl up ↦ inr (failed, rw up refl)
  | inr up ↦ elim (Bool-cases (exists (λ y. y.id == id) w.domains)) [
    | inl e ↦ inl (set_domains (verified_at id w.now w.domains) (tick w), rw (up, e) refl, refl)
    | inr e ↦ inr (not_found, rw (up, e) refl)
  ]
]

module _ (d : Deps) (actor : User) (x : DomainRow) where
  judge-IsJudged :
      (txts : List Text) (w : World)
      → IsJudged
          (IsOneOf (token_txt_value x.verification_token) txts)
          x.id
          w
          (judge d actor x txts w)
  unfolding judge missing_verdict
  judge-IsJudged txts w =
      elim (Bool-cases (any (λ t. t == token_txt_value x.verification_token) txts)) [
        | inr e ↦
            let logged =
              log_verification-domains d x.id x.verification_method (text "record not found") false
                w in
            rw e (IsJudged.unproven refl logged)
        | inl e ↦ elim (set_domain_status-cases d x.id w) [
          | inr (f, r) ↦ rw (e, r) (IsJudged.unproven refl refl)
          | inl (w1, r, rows) ↦
              let log = log_verification d x.id x.verification_method (text "verified") true w1 in
              let logged =
                log_verification-domains d x.id x.verification_method (text "verified") true w1 in
              rw (e, r)
                (IsJudged.proven refl ((audit-world d _ log.1).4 ∙ logged ∙ rows)
                  (any-IsOneOf _ txts e))
        ]
      ]

  pub look_up-IsJudged :
      (w : World)
      → IsJudged
          (IsOneOf
            (token_txt_value x.verification_token)
            (d.txt_records w.calls (verify_record_name x.fqdn)))
          x.id
          w
          (look_up d actor x w)
  unfolding look_up txt_lookup
  look_up-IsJudged w = elim (Bool-cases d.has_txt_lookup) [
    | inr e ↦ rw e (IsJudged.unproven refl refl)
    | inl e ↦ elim (Bool-cases (d.fails w.calls)) [
      | inl up ↦
          let logged =
            log_verification-domains d x.id x.verification_method (text "lookup failed") false
              (tick w) in
          simp (e, up) (IsJudged.unproven refl logged)
      | inr up ↦
          simp (e, up)
            (IsJudged-later refl refl (λ p. p)
              (judge-IsJudged (d.txt_records w.calls (verify_record_name x.fqdn)) (tick w)))
    ]
  ]
