-- ===== src/HttpApi/Setup/Create/Ending.antt =====
-- The end of the wizard's step, from the creation of the domain on, prepares for its verification.
use selfu.Base.{
  ℕ, ◌≡◌, ◌∙◌, ap, sym, inl, inr, refl, true, false, some, Text, ◌==◌, is_empty, Bool-cases,
  Checked-cases, arith,
}
use selfu.Domain.Entities.{User, DomainRow, new_domain}
use selfu.Store.State.{World}
use selfu.Store.Exec.{Deps, Result-cases}
use selfu.Store.Exec.Tables.{find}
use selfu.Store.Domains.{create_domain}
use selfu.Store.Setup.{set_installation_provider, set_installation_primary_domain, stored_provider}
use selfu.HttpApi.{json, problem-ne_json, is_conflict}
use selfu.HttpApi.Ownership.{CreatedDomain, set_txt, verify_record_name, token_txt_value}
use selfu.HttpApi.Sealing.{encrypt_secret}
use selfu.HttpApi.Setup.Create.{
  AccessProvider, access_provider_name, SetupConfig, Prepared, announce, keep_provider,
  publish_record, register_primary,
}
use selfu.HttpApi.Setup.Create.Stored.{
  set_installation_provider-got, set_installation_primary_domain-got, create_domain-got,
  set_txt-domains, new_domain-fresh,
}
use selfu.HttpApi.Setup.Verify.Pending.{IsPrimary, IsPending, audit-installation}
use selfu.HttpApi.Frames.{audit-world}

module _ (d : Deps) (c : SetupConfig) (admin : User) where
  announce-json :
      (name : Text) (x : CreatedDomain) (w after : World) (status : ℕ) (v : Prepared)
      → announce d c admin name x w ≡ (json status v, after)
      → (v.created ≡ x)
        × (v.provider ≡ name)
        × (after.installation ≡ w.installation)
        × (after.domains ≡ w.domains)
  unfolding announce
  announce-json name x w after status v h = (
    ground arith,
    ground arith,
    sym (ap (λ r. r.1.installation) h) ∙ audit-installation d _ w,
    sym (ap (λ r. r.1.domains) h) ∙ (audit-world d _ w).4,
  )

  -- What an installation that was prepared with the provider waits for, and what the reply names
  unfoldable pub IsPrepared : AccessProvider → Prepared → World → Type 0
  IsPrepared p v w =
      IsPending v.created.record_name v.created.record_value w
      × (v.provider ≡ access_provider_name p)
      × (stored_provider (access_provider_name p) ≡ true)

  keep_provider-IsPrepared :
      (p : AccessProvider) (token zone : Text) (x : CreatedDomain) (w after : World) (status : ℕ)
      (v : Prepared)
      → keep_provider d c admin p token zone x w ≡ (json status v, after)
      → is_empty x.created.id ≡ false
      → find (λ y. y.id == x.created.id) w.domains ≡ some x.created
      → x.record_name ≡ verify_record_name x.created.fqdn
      → x.record_value ≡ token_txt_value x.created.verification_token
      → IsPrepared p v after
  unfolding keep_provider encrypt_secret announce IsPrepared IsPending IsPrimary
  keep_provider-IsPrepared p token zone x w after status v h used found n value =
      let (sealed, w1) = encrypt_secret c.aead d c.encryption_key (c.marshal_config token zone) w in
      elim (Result-cases
        (set_installation_provider d (access_provider_name p) (access_provider_name p) sealed w1)) [
          | inr (e, w2, r) ↦ absurd (problem-ne_json (rw r at h))
          | inl (u, w2, r) ↦
              let (known, o, rows) =
                set_installation_provider-got d (access_provider_name p) (access_provider_name p)
                  sealed w1 w2 u r in
              elim (Result-cases (set_installation_primary_domain d x.created.id w2)) [
                | inr (e, w3, s) ↦ absurd (problem-ne_json (rw (r, s) at h))
                | inl (u', w3, s) ↦
                    let (o', id, rows') =
                      set_installation_primary_domain-got d x.created.id w2 w3 u' s in
                    let (shown, named, i, kept) =
                      announce-json (access_provider_name p) x w3 after status v (rw (r, s) at h) in
                    (
                      (
                        x.created,
                        (
                          rw i o',
                          rw (i, id) used,
                          rw (i, kept, id, rows', rows) found,
                          rw (shown, n) refl,
                          rw (shown, value) refl,
                        ),
                      ),
                      named,
                      known,
                    )
              ]
        ]

  module _ (drawn : (n : ℕ) → is_empty (d.random n) ≡ false) where
    publish_record-IsPrepared :
        (p : AccessProvider) (token zone : Text) (x : DomainRow) (w after : World) (status : ℕ)
        (v : Prepared)
        → publish_record d c admin p token zone x w ≡ (json status v, after)
        → is_empty x.id ≡ false
        → find (λ y. y.id == x.id) w.domains ≡ some x
        → IsPrepared p v after
    unfolding publish_record
    publish_record-IsPrepared p token zone x w after status v h used found =
        let name = verify_record_name x.fqdn in
        let value = token_txt_value x.verification_token in
        let kept = set_txt-domains d name value w in
        elim (Result-cases (set_txt d name value w)) [
          | inl (u, w1, r) ↦
              keep_provider-IsPrepared p token zone _ w1 after status v (rw r at h) used
                (rw (rw r at kept) found) refl refl
          | inr (e, w1, r) ↦
              keep_provider-IsPrepared p token zone _ w1 after status v (rw r at h) used
                (rw (rw r at kept) found) refl refl
        ]

    pub register_primary-IsPrepared :
        (p : AccessProvider) (token zone org fqdn : Text) (w after : World) (status : ℕ)
        (v : Prepared)
        → register_primary d c admin p token zone (new_domain d.to_ascii org fqdn) w
          ≡ (json status v, after)
        → IsPrepared p v after
    unfolding register_primary
    register_primary-IsPrepared p token zone org fqdn w after status v h =
        elim (Checked-cases (new_domain d.to_ascii org fqdn)) [
          | inr (e, bad) ↦ absurd (problem-ne_json (rw bad at h))
          | inl (x, good) ↦ elim (Result-cases (create_domain d x w)) [
            | inr (e, w1, r) ↦ elim (Bool-cases (is_conflict e)) [
              | inl k ↦ absurd (problem-ne_json (rw (good, r, k) at h))
              | inr k ↦ absurd (problem-ne_json (rw (good, r, k) at h))
            ]
            | inl (stored, w1, r) ↦
                let (used, found) =
                  create_domain-got d x stored w w1 r drawn
                    (new_domain-fresh d.to_ascii org fqdn x good) in
                publish_record-IsPrepared p token zone stored w1 after status v (rw (good, r) at h)
                  used found
          ]
        ]
