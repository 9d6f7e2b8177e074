-- ===== src/Recon.antt =====
-- Reconciliation of what the database says with what the mail server and authentik have:
-- internal/recon/mail.go, internal/recon/external.go, and the handler that runs a pass on demand,
-- `reconcileMail` of internal/httpapi/mail_handlers.go.
pub mod Conservative
pub mod Suspensions
pub mod Flags
pub mod Worker
use selfu.Base.{
  ℕ, ◌+◌, Bool, true, false, ◌&&◌, Option, none, some, List, [], ◌∷◌, ◌++◌, Text, text, ◌==◌, map,
  if◌then◌else◌,
}
use selfu.Domain.Roles.{OrgRole}
use selfu.Domain.Statuses.{
  MailIdentityStatus, ExternalStatus, MailDomainStatus, is_active_identity, is_active_mail,
}
use selfu.Domain.Entities.{User, DomainRow}
use selfu.Store.State.{
  World, MailAlias, MailIdentity, MailDomain, Effect, ExternalResource, ResourceType, AuditEvent,
}
use selfu.Store.Exec.{Result, got, fails, Deps, Act, call, on}
use selfu.Store.Exec.Tables.{find, select, order_by}
use selfu.Store.Groups.{list_group_members}
use selfu.Store.Domains.{get_domain_by_id}
use selfu.Store.Mail.{
  list_mail_aliases_by_domain, list_mail_identities_by_users, list_mail_identities_by_domain,
  update_mail_alias_destinations, set_mail_identity_status, get_mail_domain_by_domain_id,
}
use selfu.Store.Externals.{set_external_observed, is_mapping, same_type}
use selfu.HttpApi.{Reply, Handler, reply_error, reply_json, internal_error, audit, require_org_role}
use selfu.HttpApi.Seams.{record_effect}
use selfu.HttpApi.Mail.Aliases.{ensure_alias}

pub record MailResult : Type 0 where
  pub aliases_restored : ℕ
  pub group_aliases : ℕ
  pub missing_users : List Text

-- A step of a loop over the rows, which carries the result on
abbrev pub Step : Type 0
Step = MailResult × World → MailResult × World

module _ (d : Deps) where
  unfoldable pub reload_mta : Act (Unit {0})
  unfolding record_effect
  reload_mta = call d (λ w. (got tt, record_effect Effect.reload w))

  unfoldable pub mail_user_exists : Text → Act Bool
  mail_user_exists address w = call d (λ w'. (got (d.user_exists w.calls address), w')) w

  -- An alias of a group follows its members; what was written at the server counts.
  unfoldable pub refresh_group_alias : Text → Text → MailAlias → Text → Step
  unfolding list_group_members list_mail_identities_by_users update_mail_alias_destinations
      ensure_alias
  refresh_group_alias org fqdn a group (res, w) =
      on (list_group_members d group w)
        (λ members w.
          on (list_mail_identities_by_users d org (map (λ u. u.id) members) w)
            (λ identities w.
              let dests = map (λ m. m.address) identities in
              on
                (ensure_alias d fqdn a.local_part dests
                  (update_mail_alias_destinations d a.id dests w).1)
                (λ u w. (record res { group_aliases = res.group_aliases + 1 }, w))
                (λ e w. (res, w)))
            (λ e w. (res, w)))
        (λ e w. (res, w))

  unfoldable pub restore_alias : Text → MailAlias → Step
  unfolding ensure_alias
  restore_alias fqdn a (res, w) =
      on (ensure_alias d fqdn a.local_part a.destinations w)
        (λ u w. (record res { aliases_restored = res.aliases_restored + 1 }, w)) (λ e w. (res, w))

  unfoldable pub by_group : Text → Text → MailAlias → Option Text → Step
  unfolding refresh_group_alias restore_alias
  by_group org fqdn a none = restore_alias fqdn a
  by_group org fqdn a (some group) = refresh_group_alias org fqdn a group

  unfoldable pub reconcile_alias : Text → Text → MailAlias → Step
  unfolding by_group
  reconcile_alias org fqdn a s = if a.active then by_group org fqdn a a.group_id s else s

  unfoldable pub reconcile_aliases : Text → Text → List MailAlias → Step
  unfolding reconcile_alias
  reconcile_aliases org fqdn [] s = s
  reconcile_aliases org fqdn (a ∷ aliases) s =
      reconcile_aliases org fqdn aliases (reconcile_alias org fqdn a s)

  -- What is done to an identity whose user is missing at the server
  unfoldable pub flag_missing : MailIdentity → Step
  unfolding set_mail_identity_status
  flag_missing m (res, w) = (
    record res { missing_users = res.missing_users ++ (m.address ∷ []) },
    audit d
        (record {
          actor_user_id = none;
          action = "mail.identity.reconciliation_failed";
          resource_type = "mail_identity";
          resource_id = m.id;
        })
        (set_mail_identity_status d m.id MailIdentityStatus.suspended w).1,
  )

  unfoldable pub reconcile_identity : MailIdentity → Step
  unfolding mail_user_exists flag_missing
  reconcile_identity m (res, w) =
      if is_active_identity m.status
      then on (mail_user_exists m.address w)
          (λ there w. if there then (res, w) else flag_missing m (res, w)) (λ e w. (res, w))
      else (res, w)

  unfoldable pub reconcile_identities : List MailIdentity → Step
  unfolding reconcile_identity
  reconcile_identities [] s = s
  reconcile_identities (m ∷ identities) s = reconcile_identities identities (reconcile_identity m s)

  -- `ReconcileDomain`
  unfoldable pub reconcile_domain : Text → Text → Text → Act MailResult
  unfolding reconcile_aliases reconcile_identities reload_mta
  reconcile_domain domain_id fqdn org w =
      on (list_mail_aliases_by_domain d domain_id w)
        (λ aliases w.
          let (res, w) =
            reconcile_aliases org fqdn aliases
              (record { aliases_restored = 0; group_aliases = 0; missing_users = [] }, w) in
          on (list_mail_identities_by_domain d domain_id (reload_mta w).1)
            (λ identities w.
              let (res, w) = reconcile_identities identities (res, w) in (got res, w))
            (λ e w. (fails e, w)))
        (λ e w. (fails e, w))

  -- The part of `reconcileMail` behind the checks
  unfoldable pub run_reconciler : User → DomainRow → Handler MailResult
  unfolding reconcile_domain
  run_reconciler actor x w =
      on (reconcile_domain x.id x.fqdn x.organization_id w)
        (λ res w. reply_json 200 res (
          audit d
            (record {
              actor_user_id = some actor.id;
              action = "mail.reconciliation";
              resource_type = "domain";
              resource_id = x.id;
            })
            w))
        (λ e w. internal_error w)

  -- `reconcileMail`
  unfoldable pub reconcile_mail : User → Text → Handler MailResult
  unfolding require_org_role run_reconciler
  reconcile_mail actor id w =
      on (get_domain_by_id d id w)
        (λ x w.
          require_org_role d actor x.organization_id OrgRole.admin
            (λ w.
              on (get_mail_domain_by_domain_id d x.id w)
                (λ m w.
                  if d.has_chasquid
                  then run_reconciler actor x w
                  else reply_error 422 "mail_unavailable" w)
                (λ e w. reply_error 404 "not_found" w))
            w)
        (λ e w. reply_error 404 "not_found" w)
