-- ===== src/HttpApi/Setup/Create/Stored.antt =====
-- What the statements of the wizard's step leave in the tables.
use selfu.Base.{
  ℕ, ◌+◌, ◌≡◌, ap, sym, inl, inr, refl, true, false, ◌&&◌, some, Text, ◌==◌, ==_refl, is_empty,
  Bool-cases, >>=-eq-ok, reject_if, Checked, ok, arith,
}
use selfu.Domain.Entities.{DomainRow, new_domain}
use selfu.Domain.Names.{normalize_domain}
use selfu.Domain.Statuses.{DomainStatus}
use selfu.Store.State.{World}
use selfu.Store.Exec.{got, Deps, draw, tick, fails-ne_got, call-got}
use selfu.Store.Exec.Tables.{find, exists}
use selfu.Store.Domains.{create_domain, insert_domain, set_domains}
use selfu.Store.Setup.{
  set_installation_provider, set_installation_primary_domain, set_installation, onboarded,
  stored_provider,
}
use selfu.HttpApi.Ownership.{set_txt}

pub set_installation_provider-got :
    (d : Deps) (p q sealed : Text) (w after : World) (u : Unit {0})
    → set_installation_provider d p q sealed w ≡ (got u, after)
    → (stored_provider q ≡ true)
      × (onboarded after.installation ≡ false)
      × (after.domains ≡ w.domains)
unfolding set_installation_provider set_installation
set_installation_provider-got d p q sealed w after u h = (ground arith, ground arith, ground arith)

pub set_installation_primary_domain-got :
    (d : Deps) (id : Text) (w after : World) (u : Unit {0})
    → set_installation_primary_domain d id w ≡ (got u, after)
    → (onboarded after.installation ≡ false)
      × (after.installation.primary_domain_id ≡ id)
      × (after.domains ≡ w.domains)
unfolding set_installation_primary_domain set_installation
set_installation_primary_domain-got d id w after u h = (ground arith, ground arith, ground arith)

pub set_txt-domains :
    (d : Deps) (name value : Text) (w : World) → (set_txt d name value w).1.domains ≡ w.domains
unfolding set_txt
set_txt-domains d name value w = ground arith

pub new_domain-fresh :
    (to_ascii : Text → Checked Text) (org fqdn : Text) (x : DomainRow)
    → new_domain to_ascii org fqdn ≡ ok x
    → is_empty x.id ≡ true
unfolding new_domain
new_domain-fresh to_ascii org fqdn x h =
    let (norm, n, more) = >>=-eq-ok (normalize_domain to_ascii fqdn) _ h in
    let (u, checked, made) = >>=-eq-ok (reject_if (is_empty org) _) _ more in ground (arith, made)

insert_domain-got :
    (x stored : DomainRow) (w after : World)
    → insert_domain x w ≡ (got stored, after)
    → (stored ≡ x) × (find (λ y. y.id == stored.id) after.domains ≡ some stored)
unfolding insert_domain set_domains find
insert_domain-got x stored w after h =
    elim (Bool-cases
      (exists (λ y. y.organization_id == x.organization_id && y.fqdn == x.fqdn) w.domains)) [
        | inl e ↦ absurd (fails-ne_got (rw e at h))
        | inr e ↦ elim (Bool-cases (exists (λ o. o.id == x.organization_id) w.organizations)) [
          | inr f ↦ absurd (fails-ne_got (rw (e, f) at h))
          | inl f ↦
              let ran = rw (e, f) at h in
              let same : x ≡ stored = ground (arith, ran) in
              let rows = ap (λ r. r.1.domains) ran in
              (sym same, rw (sym rows, sym same) (rw (==_refl x.id) refl))
        ]
      ]

pub create_domain-got :
    (d : Deps) (x stored : DomainRow) (w after : World)
    → create_domain d x w ≡ (got stored, after)
    → ((n : ℕ) → is_empty (d.random n) ≡ false)
    → is_empty x.id ≡ true
    → (is_empty stored.id ≡ false) × (find (λ y. y.id == stored.id) after.domains ≡ some stored)
unfolding create_domain
create_domain-got d x stored w after h drawn fresh =
    let row = record x {
      id = d.random w.draws;
      status = DomainStatus.pending;
      verification_token = d.random (w.draws + 1);
    } in
    let ran = call-got d (insert_domain row) (draw d (draw d w).1).1 after stored (rw fresh at h) in
    let (same, found) = insert_domain-got row stored (tick (draw d (draw d w).1).1) after ran in
    (rw same (drawn w.draws), found)
