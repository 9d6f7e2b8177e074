-- ===== src/HttpApi/Setup/Create/Promise.antt =====
-- What the wizard's step prepares for the verification of the primary domain.
use selfu.Base.{
  ℕ, ◌≢◌, text, ap, sym, ◌∙◌, refl, none, some, ==_iff, ◌≡◌, inl, inr, true, false, Text, ◌==◌,
  is_empty, trim_space, Bool-cases, Option-cases, Checked-cases, Checked, ok, err, Option,
}
use selfu.Domain.Entities.{User, Organization, new_organization}
use selfu.Domain.Names.{normalize_domain, validate_local_domain}
use selfu.Domain.Roles.{OrgRole}
use selfu.Store.State.{World, Installation}
use selfu.Store.Exec.{Deps, tick, Result-cases}
use selfu.Store.Organizations.{create_organization, set_membership}
use selfu.Store.Setup.{onboarded, stored_provider, get_installation}
use selfu.HttpApi.{json, problem-ne_json, is_conflict}
use selfu.HttpApi.Setup.Create.{
  access_provider_name, AccessProvider, SetupConfig, SetupRequest, Prepared, found_organization,
  probe_zone, with_zone, by_provider, probe, resolve, new_access_provider, check_primary,
  check_provider, create_setup,
}
use selfu.HttpApi.Setup.Create.Ending.{IsPrepared, register_primary-IsPrepared}
use selfu.HttpApi.Setup.Verify.Pending.{IsPending}

-- A provider has the name by which it was asked for.
new_access_provider-name :
    (name : Text) (p : AccessProvider)
    → new_access_provider name ≡ some p
    → access_provider_name p ≡ name
unfolding new_access_provider access_provider_name
new_access_provider-name name p h = elim (Bool-cases (name == text "manual")) [
  | inl e ↦ named name (text "manual") AccessProvider.manual p refl e (rw e at h)
  | inr e ↦ elim (Bool-cases (name == text "cloudflare")) [
    | inl f ↦ named name (text "cloudflare") AccessProvider.cloudflare p refl f (rw (e, f) at h)
    | inr f ↦ elim (Bool-cases (name == text "route53")) [
      | inl g ↦ named name (text "route53") AccessProvider.route53 p refl g (rw (e, f, g) at h)
      | inr g ↦ absurd (no_provider (rw (e, f, g) at h))
    ]
  ]
]
  where
    no_provider : {p : AccessProvider} → ¬ (none ≡ some p)
    no_provider k = cc

    named :
        (name word : Text) (q p : AccessProvider)
        → access_provider_name q ≡ word
        → (name == word) ≡ true
        → some q ≡ some p
        → access_provider_name p ≡ name
    named name word q p k e h =
        let same : q ≡ p = cc in
        ap access_provider_name (sym same) ∙ k ∙ sym ((==_iff name word).0 e)

not_stored : ¬ (stored_provider (text "route53") ≡ true)
unfolding stored_provider ◌==◌
not_stored h = cc

module _ (d : Deps) (c : SetupConfig) (admin : User)
    (drawn : (n : ℕ) → is_empty (d.random n) ≡ false) where
  found_organization-IsPrepared :
      (p : AccessProvider) (token zone fqdn : Text) (o : Checked Organization) (w after : World)
      (status : ℕ) (v : Prepared)
      → found_organization d c admin p token zone fqdn o w ≡ (json status v, after)
      → IsPrepared d c admin p v after
  unfolding found_organization
  found_organization-IsPrepared p token zone fqdn (err e) w after status v h =
      absurd (problem-ne_json h)
  found_organization-IsPrepared p token zone fqdn (ok o) w after status v h =
      elim (Result-cases (create_organization d o w)) [
        | inr (e, w1, r) ↦ elim (Bool-cases (is_conflict e)) [
          | inl k ↦ absurd (problem-ne_json (rw (r, k) at h))
          | inr k ↦ absurd (problem-ne_json (rw (r, k) at h))
        ]
        | inl (org, w1, r) ↦
            elim (Result-cases (set_membership d org.id admin.id OrgRole.owner w1)) [
              | inr (e, w2, m) ↦ absurd (problem-ne_json (rw (r, m) at h))
              | inl (row, w2, m) ↦
                  register_primary-IsPrepared d c admin drawn p token zone org.id fqdn w2 after
                    status v (rw (r, m) at h)
            ]
      ]

  probe_zone-IsPrepared :
      (token zone fqdn : Text) (w after : World) (status : ℕ) (v : Prepared)
      → probe_zone d c admin token zone fqdn w ≡ (json status v, after)
      → IsPrepared d c admin AccessProvider.cloudflare v after
  unfolding probe_zone
  probe_zone-IsPrepared token zone fqdn w after status v h =
      elim (Result-cases (probe d c admin token zone w)) [
        | inr (e, w1, r) ↦ absurd (problem-ne_json (rw r at h))
        | inl (u, w1, r) ↦
            found_organization-IsPrepared AccessProvider.cloudflare token zone fqdn
              (new_organization fqdn) w1 after status v (rw r at h)
      ]

  with_zone-IsPrepared :
      (token zone fqdn : Text) (w after : World) (status : ℕ) (v : Prepared)
      → with_zone d c admin token zone fqdn w ≡ (json status v, after)
      → IsPrepared d c admin AccessProvider.cloudflare v after
  unfolding with_zone
  with_zone-IsPrepared token zone fqdn w after status v h =
      elim (Bool-cases (is_empty (trim_space token))) [
        | inl e ↦ absurd (problem-ne_json (rw e at h))
        | inr e ↦ elim (Bool-cases (is_empty (trim_space zone))) [
          | inr z ↦ probe_zone-IsPrepared token zone fqdn w after status v (rw (e, z) at h)
          | inl z ↦ elim (Result-cases (resolve d c admin fqdn token w)) [
            | inr (f, w1, r) ↦ absurd (problem-ne_json (rw (e, z, r) at h))
            | inl (resolved, w1, r) ↦
                probe_zone-IsPrepared token resolved fqdn w1 after status v (rw (e, z, r) at h)
          ]
        ]
      ]

  by_provider-IsPrepared :
      (p : AccessProvider) (r : SetupRequest) (fqdn : Text) (w after : World) (status : ℕ)
      (v : Prepared)
      → by_provider d c admin p r fqdn w ≡ (json status v, after)
      → IsPrepared d c admin p v after
  unfolding by_provider
  by_provider-IsPrepared AccessProvider.cloudflare r fqdn w after status v h =
      with_zone-IsPrepared r.api_token r.zone_id fqdn w after status v h
  by_provider-IsPrepared AccessProvider.manual r fqdn w after status v h =
      found_organization-IsPrepared AccessProvider.manual r.api_token r.zone_id fqdn
        (new_organization fqdn) w after status v h
  by_provider-IsPrepared AccessProvider.route53 r fqdn w after status v h =
      found_organization-IsPrepared AccessProvider.route53 r.api_token r.zone_id fqdn
        (new_organization fqdn) w after status v h

  check_provider-IsPrepared :
      (inst : Installation) (r : SetupRequest) (w after : World) (status : ℕ) (v : Prepared)
      → check_provider d c admin inst r (new_access_provider r.provider) w ≡ (json status v, after)
      → IsPending v.created.record_name v.created.record_value after
        × (v.provider ≡ r.provider)
        × (stored_provider r.provider ≡ true)
        × (r.provider ≢ text "route53")
  unfolding check_provider check_primary IsPrepared
  check_provider-IsPrepared inst r w after status v h =
      elim (Option-cases (new_access_provider r.provider)) [
        | inl e ↦ absurd (problem-ne_json (rw e at h))
        | inr (p, e) ↦ elim (Checked-cases (normalize_domain d.to_ascii r.fqdn)) [
          | inr (m, bad) ↦ absurd (problem-ne_json (rw (e, bad) at h))
          | inl (fqdn, good) ↦ elim (Bool-cases (fqdn == validate_local_domain inst.local_domain)) [
            | inl l ↦ absurd (problem-ne_json (rw (e, good, l) at h))
            | inr l ↦
                let named = new_access_provider-name r.provider p e in
                let (waits, shown, known) =
                  by_provider-IsPrepared p r fqdn w after status v (rw (e, good, l) at h) in
                (
                  waits,
                  shown ∙ named,
                  rw (sym named) known,
                  λ k. not_stored (rw (named ∙ k) at known),
                )
          ]
        ]
      ]

  -- If the step of the wizard succeeds, then the actor is a platform admin, the installation was not
  -- onboarded, and it now waits for the TXT record that the reply names to have the value that the
  -- reply gives, as the verification of the primary domain expects. The reply has the provider of the
  -- request, which is one that the database takes and so is not route53: a request for route53 never
  -- succeeds. Drawn identifiers are not empty.
  pub create_setup-IsPending :
      (body : Option SetupRequest) (w after : World) (status : ℕ) (v : Prepared)
      → create_setup d c admin body w ≡ (json status v, after)
      → (admin.is_admin ≡ true)
        × (onboarded w.installation ≡ false)
        × IsPending v.created.record_name v.created.record_value after
        × ((r : SetupRequest) × (body ≡ some r)
            × (v.provider ≡ r.provider)
            × (stored_provider r.provider ≡ true)
            × (r.provider ≢ text "route53"))
  unfolding create_setup get_installation
  create_setup-IsPending body w after status v h = elim (Bool-cases admin.is_admin) [
    | inr a ↦ absurd (problem-ne_json (rw a at h))
    | inl a ↦ elim (Bool-cases (d.fails w.calls)) [
      | inl up ↦ absurd (problem-ne_json (simp (a, up) at h))
      | inr up ↦ elim (Bool-cases (onboarded w.installation)) [
        | inl o ↦ absurd (problem-ne_json (simp (a, up, o) at h))
        | inr o ↦ elim (Option-cases body) [
          | inl b ↦ absurd (problem-ne_json (simp (a, up, o, b) at h))
          | inr (r, b) ↦
              let (waits, same, stored, other) =
                check_provider-IsPrepared w.installation r (tick w) after status v
                  (simp (a, up, o, b) at h) in
              (a, o, waits, (r, b, same, stored, other))
        ]
      ]
    ]
  ]
