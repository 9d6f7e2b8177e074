-- ===== src/HttpApi/Setup/Verify/Pending.antt =====
-- An installation that waits for the record of its primary domain, and what the statements of an
-- attempt to verify it do.
use selfu.Base.{
  ℕ, suc, ◌≡◌, ◌⊎◌, inl, inr, refl, Bool, true, false, Option, some, Text, ◌==◌, ==_iff, is_empty,
  Bool-cases, arith,
}
use selfu.Domain.Statuses.{DomainStatus}
use selfu.Domain.Entities.{DomainRow}
use selfu.Store.State.{World, AuditEvent}
use selfu.Store.Exec.{failed, got, fails, Deps, tick}
use selfu.Store.Exec.Tables.{find, update_where}
use selfu.Store.Exec.Tables.Rows.{find-eq-some, find-update_where_same}
use selfu.Store.Domains.{set_domain_status, log_verification, set_domains}
use selfu.Store.Setup.{set_installation_onboarded, set_installation, onboarded}
use selfu.HttpApi.{audit}
use selfu.HttpApi.Ownership.{verify_record_name, token_txt_value}

pub log_verification-world :
    (d : Deps) (id method detail : Text) (success : Bool) (w : World)
    → ((log_verification d id method detail success w).1.installation ≡ w.installation)
      × ((log_verification d id method detail success w).1.domains ≡ w.domains)
      × ((log_verification d id method detail success w).1.calls ≡ suc w.calls)
unfolding log_verification
log_verification-world d id method detail success w = (ground arith, ground arith, ground arith)

pub audit-installation :
    (d : Deps) (e : AuditEvent) (w : World) → (audit d e w).installation ≡ w.installation
unfolding audit
audit-installation d e w = ground arith

-- The installation is onboarded afterwards, or nothing was changed since the statement failed.
pub set_installation_onboarded-cases :
    (d : Deps) (at : ℕ) (w : World)
    → ((after : World) × (set_installation_onboarded d at w ≡ (got tt, after))
        × (onboarded after.installation ≡ true))
      ⊎ ((set_installation_onboarded d at w ≡ (fails failed, tick w)) × (d.fails w.calls ≡ true))
unfolding set_installation_onboarded set_installation
set_installation_onboarded-cases d at w = elim (Bool-cases (d.fails w.calls)) [
  | inl up ↦ inr (rw up refl, up)
  | inr up ↦ elim (Bool-cases (onboarded w.installation)) [
    | inl o ↦ inl (tick w, rw (up, o) refl, o)
    | inr o ↦ inl (
      set_installation (record w.installation { onboarded_at = some at }) (tick w),
      rw (up, o) refl,
      refl,
    )
  ]
]

module _ (name value : Text) where
  -- The domain is the primary one of an installation that is not onboarded, and its TXT record is to
  -- have the given name and value.
  unfoldable pub IsPrimary : DomainRow → World → Type 0
  IsPrimary x w =
      (onboarded w.installation ≡ false)
      × (is_empty w.installation.primary_domain_id ≡ false)
      × (find (λ y. y.id == w.installation.primary_domain_id) w.domains ≡ some x)
      × (verify_record_name x.fqdn ≡ name)
      × (token_txt_value x.verification_token ≡ value)

  -- The installation waits for the TXT record `name` of its primary domain to be `value`.
  unfoldable pub IsPending : World → Type 0
  unfolding IsPrimary
  IsPending w = (x : DomainRow) × IsPrimary x w

  pub IsPrimary-world :
      (x : DomainRow) (w after : World)
      → after.installation ≡ w.installation
      → after.domains ≡ w.domains
      → IsPrimary x w
      → IsPrimary x after
  unfolding IsPrimary
  IsPrimary-world x w after i rows h = rw (i, rows) h

  pub set_domain_status-cases :
      (d : Deps) (x : DomainRow) (status : DomainStatus) (at : Option ℕ) (w : World)
      → IsPrimary x w
      → ((after : World) × (set_domain_status d x.id status at w ≡ (got tt, after))
          × IsPrimary (record x { status = status; verified_at = at }) after
          × (after.calls ≡ suc w.calls))
        ⊎ ((set_domain_status d x.id status at w ≡ (fails failed, tick w))
            × (d.fails w.calls ≡ true))
  unfolding IsPrimary set_domain_status set_domains
  set_domain_status-cases d x status at w (pending, primary, found, n, v) =
      let (self, some_row) =
        find-eq-some (λ y. y.id == w.installation.primary_domain_id) w.domains x found in
      let same = (==_iff x.id w.installation.primary_domain_id).0 self in
      elim (Bool-cases (d.fails w.calls)) [
        | inl up ↦ inr (rw up refl, up)
        | inr up ↦ inl (
          set_domains
              (update_where (λ y. y.id == w.installation.primary_domain_id)
                (λ y. record y { status = status; verified_at = at }) w.domains)
              (tick w),
          rw (up, same, some_row) refl,
          (
            pending,
            primary,
            find-update_where_same (λ y. y.id == w.installation.primary_domain_id)
                (λ y. record y { status = status; verified_at = at }) (λ y e. e) w.domains x found,
            n,
            v,
          ),
          omega arith,
        )
      ]
