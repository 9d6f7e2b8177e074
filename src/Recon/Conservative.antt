-- ===== src/Recon/Conservative.antt =====
-- What the work on aliases leaves alone.
use selfu.Base.{
  ◌≡◌, ◌∙◌, inl, inr, refl, Bool, true, false, Option, none, some, List, [], ◌∷◌, Text, map,
  if◌then◌else◌, Bool-cases,
}
use selfu.Store.State.{World, MailAlias, AuditEvent}
use selfu.Store.Exec.{Deps, draw, tick, Result-cases}
use selfu.Store.Groups.{list_group_members}
use selfu.Store.Mail.{
  list_mail_identities_by_users, user_exists_or_null, update_mail_alias_destinations,
  set_mail_aliases,
}
use selfu.HttpApi.{audit}
use selfu.HttpApi.Seams.{record_effect}
use selfu.HttpApi.Mail.Aliases.{ensure_alias}
use selfu.Recon.{
  MailResult, reload_mta, refresh_group_alias, restore_alias, by_group, reconcile_alias,
  reconcile_aliases,
}

-- All that the work on aliases does not write: everything but aliases, the log and what was done
-- outside.
unfoldable pub kept : World → World
kept w = record w { calls = 0; draws = 0; mail_aliases = []; audits = []; effects = [] }

pub audit-kept : (d : Deps) (e : AuditEvent) (w : World) → kept (audit d e w) ≡ kept w
unfolding audit kept
audit-kept d e w = elim (Bool-cases (d.fails w.calls)) [
  | inl up ↦ rw (audit, up) refl
  | inr up ↦ elim (Bool-cases (user_exists_or_null e.actor_user_id (tick (draw d w).1))) [
    | inl u ↦ rw (audit, up, u) refl
    | inr u ↦ rw (audit, up, u) refl
  ]
]

module _ (d : Deps) where
  members-kept : (group : Text) (w : World) → kept (list_group_members d group w).1 ≡ kept w
  unfolding list_group_members kept
  members-kept group w = elim (Bool-cases (d.fails w.calls)) [
    | inl up ↦ rw up refl
    | inr up ↦ rw up refl
  ]

  identities-kept :
      (org : Text) (users : List Text) (w : World)
      → kept (list_mail_identities_by_users d org users w).1 ≡ kept w
  unfolding list_mail_identities_by_users kept
  identities-kept org [] w = refl
  identities-kept org (u ∷ users) w = elim (Bool-cases (d.fails w.calls)) [
    | inl up ↦ rw up refl
    | inr up ↦ rw up refl
  ]

  update-kept :
      (id : Text) (dests : List Text) (w : World)
      → kept (update_mail_alias_destinations d id dests w).1 ≡ kept w
  unfolding update_mail_alias_destinations set_mail_aliases kept
  update-kept id dests w = elim (Bool-cases (d.fails w.calls)) [
    | inl up ↦ rw up refl
    | inr up ↦ rw up refl
  ]

  ensure_alias-kept :
      (fqdn local : Text) (dests : List Text) (w : World)
      → kept (ensure_alias d fqdn local dests w).1 ≡ kept w
  unfolding ensure_alias record_effect kept
  ensure_alias-kept fqdn local dests w = elim (Bool-cases (d.fails w.calls)) [
    | inl up ↦ rw up refl
    | inr up ↦ rw up refl
  ]

  pub reload_mta-kept : (w : World) → kept (reload_mta d w).1 ≡ kept w
  unfolding reload_mta record_effect kept
  reload_mta-kept w = elim (Bool-cases (d.fails w.calls)) [
    | inl up ↦ rw up refl
    | inr up ↦ rw up refl
  ]

  restore_alias-kept :
      (fqdn : Text) (a : MailAlias) (s : MailResult × World)
      → kept (restore_alias d fqdn a s).1 ≡ kept s.1
  unfolding restore_alias
  restore_alias-kept fqdn a (res, w) =
      let k = ensure_alias-kept fqdn a.local_part a.destinations w in
      elim (Result-cases (ensure_alias d fqdn a.local_part a.destinations w)) [
        | inl (u, w1, r) ↦ rw r (rw r at k)
        | inr (e, w1, r) ↦ rw r (rw r at k)
      ]

  refresh_group_alias-kept :
      (org fqdn : Text) (a : MailAlias) (group : Text) (s : MailResult × World)
      → kept (refresh_group_alias d org fqdn a group s).1 ≡ kept s.1
  unfolding refresh_group_alias
  refresh_group_alias-kept org fqdn a group (res, w) =
      let k = members-kept group w in
      elim (Result-cases (list_group_members d group w)) [
        | inr (e, w1, r) ↦ rw r (rw r at k)
        | inl (members, w1, r) ↦
            let users = map (λ u. u.id) members in
            let k1 : kept w1 ≡ kept w = rw r at k in
            let k' = identities-kept org users w1 in
            elim (Result-cases (list_mail_identities_by_users d org users w1)) [
              | inr (e, w2, q) ↦ let k2 : kept w2 ≡ kept w1 = rw q at k' in rw (r, q) (k2 ∙ k1)
              | inl (identities, w2, q) ↦
                  let k2 : kept w2 ≡ kept w1 = rw q at k' in
                  let dests = map (λ m. m.address) identities in
                  let w3 = (update_mail_alias_destinations d a.id dests w2).1 in
                  let k3 : kept w3 ≡ kept w2 = update-kept a.id dests w2 in
                  let k'' = ensure_alias-kept fqdn a.local_part dests w3 in
                  elim (Result-cases (ensure_alias d fqdn a.local_part dests w3)) [
                    | inl (u, w4, p) ↦
                        let k4 : kept w4 ≡ kept w3 = rw p at k'' in rw (r, q, p) (k4 ∙ k3 ∙ k2 ∙ k1)
                    | inr (e, w4, p) ↦
                        let k4 : kept w4 ≡ kept w3 = rw p at k'' in rw (r, q, p) (k4 ∙ k3 ∙ k2 ∙ k1)
                  ]
            ]
      ]

  by_group-kept :
      (org fqdn : Text) (a : MailAlias) (g : Option Text) (s : MailResult × World)
      → kept (by_group d org fqdn a g s).1 ≡ kept s.1
  unfolding by_group
  by_group-kept org fqdn a none s = restore_alias-kept fqdn a s
  by_group-kept org fqdn a (some group) s = refresh_group_alias-kept org fqdn a group s

  reconcile_alias-kept :
      (org fqdn : Text) (a : MailAlias) (s : MailResult × World)
      → kept (reconcile_alias d org fqdn a s).1 ≡ kept s.1
  unfolding reconcile_alias
  reconcile_alias-kept org fqdn a s = chosen a.active
    where
      chosen : (b : Bool) → kept (if b then by_group d org fqdn a a.group_id s else s).1 ≡ kept s.1
      chosen true = by_group-kept org fqdn a a.group_id s
      chosen false = refl

  pub reconcile_aliases-kept :
      (org fqdn : Text) (aliases : List MailAlias) (s : MailResult × World)
      → kept (reconcile_aliases d org fqdn aliases s).1 ≡ kept s.1
  unfolding reconcile_aliases
  reconcile_aliases-kept org fqdn [] s = refl
  reconcile_aliases-kept org fqdn (a ∷ aliases) s =
      reconcile_aliases-kept org fqdn aliases (reconcile_alias d org fqdn a s)
      ∙ reconcile_alias-kept org fqdn a s
