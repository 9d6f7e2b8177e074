-- ===== src/HttpApi/Mail/Routing.antt =====
-- Routing of aliases: what `ValidateAliasDestinations` and `createMailAlias` promise.
use selfu.Base.{
  ℕ, ◌≡◌, inl, inr, true, Option, some, List, [], ◌∷◌, arith, Bool-cases, Option-cases,
  if◌then◌else◌, Text, ◌==◌, All,
}
use selfu.Domain.Entities.{User, DomainRow}
use selfu.Store.State.{World, MailIdentity, MailAlias}
use selfu.Store.Exec.{got, Deps, tick, on, Result-cases}
use selfu.Store.Exec.Tables.{find}
use selfu.Store.Mail.{
  validate_alias_destinations, get_mail_identity_by_address, create_mail_alias, insert_mail_alias,
}
use selfu.HttpApi.{json, problem-ne_json, reply_error}
use selfu.HttpApi.Mail.Aliases.{ensure_alias, store_alias, route_alias}
use selfu.Provision.{local_part_of}

-- The address of a mail identity of the organization
abbrev pub IsLocal : World → Text → Text → Type 0
IsLocal w org dest =
    (m : MailIdentity) × (find (λ n. n.address == dest) w.mail_identities ≡ some m)
    × ((m.organization_id == org) ≡ true)

module _ (d : Deps) (org : Text) where
  -- ValidateAliasDestinations succeeds only if every destination is the address of a mail identity of
  -- the organization, and it changes no identity.
  pub validate_alias_destinations-IsLocal :
      (destinations : List Text) (w w' : World) (u : Unit {0})
      → validate_alias_destinations d org destinations w ≡ (got u, w')
      → All (IsLocal w org) destinations × (w'.mail_identities ≡ w.mail_identities)
  unfolding validate_alias_destinations get_mail_identity_by_address
  validate_alias_destinations-IsLocal [] w w' u h = (tt, ground arith)
  validate_alias_destinations-IsLocal (dest ∷ rest) w w' u h =
      let ih = validate_alias_destinations-IsLocal rest (tick w) w' u in
      elim (Bool-cases (d.fails w.calls)) [
        | inl up ↦ ground arith
        | inr up ↦ elim (Option-cases (find (λ n. n.address == dest) w.mail_identities)) [
          | inl e ↦ ground arith
          | inr (m, e) ↦ elim (Bool-cases (m.organization_id == org)) [
            | inr o ↦ ground arith
            | inl o ↦ let (more, kept) = ih (rw (up, e, o) at h) in (((m, e, o), more), kept)
          ]
        ]
      ]

module _ (d : Deps) (actor : User) (x : DomainRow) (addr : Text) (group : Option Text) where
  stored :
      (destinations : List Text) (w w' : World) (status : ℕ) (a : MailAlias)
      → (if d.has_chasquid
          then on
              (ensure_alias d x.fqdn (local_part_of addr) destinations w)
              (λ u w. store_alias d actor x addr destinations group w)
              (λ e w. reply_error 422 "provisioning_failed" w)
          else reply_error 422 "mail_unavailable" w)
        ≡ (json status a, w')
      → (a.destinations ≡ destinations) × (a.organization_id ≡ x.organization_id)
  unfolding store_alias create_mail_alias insert_mail_alias
  stored destinations w w' status a h = elim (Bool-cases d.has_chasquid) [
    | inr e ↦ absurd (problem-ne_json (rw e at h))
    | inl e ↦ elim (Result-cases (ensure_alias d x.fqdn (local_part_of addr) destinations w)) [
      | inr (f, w1, q) ↦ ground arith
      | inl (u, w1, q) ↦ (ground arith, ground arith)
    ]
  ]

  -- An alias that is stored routes only to mail identities of the organization of its domain, whether
  -- its destinations were given or come from a group.
  pub route_alias-IsLocal :
      (destinations : List Text) (w w' : World) (status : ℕ) (a : MailAlias)
      → route_alias d actor x addr destinations group w ≡ (json status a, w')
      → (a.destinations ≡ destinations)
        × (a.organization_id ≡ x.organization_id)
        × All (IsLocal w x.organization_id) destinations
  unfolding route_alias
  route_alias-IsLocal destinations w w' status a h =
      elim (Result-cases (validate_alias_destinations d x.organization_id destinations w)) [
        | inr (e, w1, q) ↦ absurd (problem-ne_json (rw q at h))
        | inl (u, w1, q) ↦
            let (local, kept) =
              validate_alias_destinations-IsLocal d x.organization_id destinations w w1 u q in
            let (same, org) = stored destinations w1 w' status a (rw q at h) in (same, org, local)
      ]
