-- ===== src/HttpApi/Mail.antt =====
-- Mail domains, mailboxes and aliases: internal/httpapi/mail_handlers.go.
pub mod Aliases
pub mod Routing
use selfu.Base.{
  true, Option, none, some, List, [], ◌∷◌, Text, ◌==◌, if◌then◌else◌, is_empty, map, Checked, ok,
  err,
}
use selfu.Domain.Roles.{OrgRole}
use selfu.Domain.Statuses.{MailDomainStatus, MailIdentityStatus, is_verified, is_active_mail}
use selfu.Domain.Addresses.{build_address}
use selfu.Domain.Entities.{User, DomainRow}
use selfu.Store.State.{World, Effect, MailDomain, MailIdentity, MailAlias}
use selfu.Store.Exec.{got, Deps, Act, call, on}
use selfu.Store.Organizations.{get_membership_role}
use selfu.Store.Groups.{get_group_by_id, list_group_members}
use selfu.Store.Domains.{get_domain_by_id}
use selfu.Store.Mail.{
  get_mail_domain_by_domain_id, create_mail_domain, set_mail_domain_status, set_mail_domain_dkim,
  get_mail_identity, create_mail_alias, validate_alias_destinations, list_mail_identities_by_users,
}
use selfu.HttpApi.{
  Reply, problem, json, Handler, reply_error, reply_json, internal_error, with_body, is_conflict,
  audit, require_org_role,
}
use selfu.HttpApi.Seams.{record_effect}
use selfu.Provision.{Provisioned, Rotated, provisioner, rotate, local_part_of}

-- The methods of chasquid.ChasquidController that the handlers call
module _ (d : Deps) where
  unfoldable pub ensure_domain : Text → Act (Unit {0})
  unfolding record_effect
  ensure_domain fqdn = call d (λ w. (got tt, record_effect (Effect.ensure_domain fqdn) w))

  unfoldable pub restart_mta : Act (Unit {0})
  unfolding record_effect
  restart_mta = call d (λ w. (got tt, record_effect Effect.restart w))

  unfoldable pub ensure_dkim : Text → Act (Text × Text)
  unfolding record_effect
  ensure_dkim fqdn = call d (λ w. (got (d.dkim fqdn), record_effect (Effect.ensure_dkim fqdn) w))

-- `optionalStringPtr`
unfoldable pub optional_text : Text → Option Text
optional_text [] = none
optional_text (c ∷ s) = some (c ∷ s)

pub record CreateMailIdentityReq : Type 0 where
  pub local_part : Text
  pub user_id : Text

module _ (d : Deps) (actor : User) where
  -- The opening of these handlers: the domain exists and the actor may act on its organization.
  unfoldable pub on_domain : {A : Type 0} → Text → (DomainRow → Handler A) → Handler A
  unfolding require_org_role
  on_domain id next w =
      on (get_domain_by_id d id w)
        (λ x w. require_org_role d actor x.organization_id OrgRole.admin (next x) w)
        (λ e w. reply_error 404 "not_found" w)

  -- The part of `enableMail` after the row of the mail domain is there
  unfoldable pub set_up_mail : DomainRow → MailDomain → Handler MailDomain
  set_up_mail x m w =
      on (ensure_domain d x.fqdn w)
        (λ u w.
          let started = (restart_mta d w).1 in
          let keyed =
            on (ensure_dkim d x.fqdn started) (λ dk w. (set_mail_domain_dkim d m.id dk.0 dk.1 w).1)
              (λ e w. w) in
          reply_json 201 m (
            audit d
              (record {
                actor_user_id = some actor.id;
                action = "mail.domain.enabled";
                resource_type = "domain";
                resource_id = x.id;
              })
              (set_mail_domain_status d m.id MailDomainStatus.active keyed).1))
        (λ e w.
          reply_error 422 "provisioning_failed"
            (set_mail_domain_status d m.id MailDomainStatus.disabled w).1)

  -- `enableMail`
  unfoldable pub enable_mail : Text → Handler MailDomain
  unfolding on_domain set_up_mail
  enable_mail id = on_domain id (λ x w.
      if is_verified x.status
      then if d.has_chasquid
        then on (get_mail_domain_by_domain_id d x.id w) (λ m w. reply_error 409 "conflict" w)
            (λ e w.
              on (create_mail_domain d x.id w) (λ m w. set_up_mail x m w)
                (λ e w. if is_conflict e then reply_error 409 "conflict" w else internal_error w))
        else reply_error 422 "mail_unavailable" w
      else reply_error 409 "domain_not_verified" w)

  -- `disableMail`
  unfoldable pub disable_mail : Text → Handler MailDomainStatus
  unfolding on_domain
  disable_mail id = on_domain id (λ x w.
      on (get_mail_domain_by_domain_id d x.id w)
        (λ m w.
          on (set_mail_domain_status d m.id MailDomainStatus.disabled w)
            (λ u w. reply_json 200 MailDomainStatus.disabled (
              audit d
                (record {
                  actor_user_id = some actor.id;
                  action = "mail.domain.disabled";
                  resource_type = "domain";
                  resource_id = x.id;
                })
                w))
            (λ e w. internal_error w))
        (λ e w. reply_error 404 "not_found" w))

  -- The part of `createMailIdentity` after its checks
  unfoldable pub provision_mailbox : DomainRow → Text → Text → Handler Provisioned
  provision_mailbox x user addr w =
      on
        (provisioner d
          (record {
            id = [];
            organization_id = x.organization_id;
            user_id = optional_text user;
            domain_id = x.id;
            local_part = [];
            address = addr;
            chasquid_username = addr;
            status = MailIdentityStatus.provisioning;
          })
          w)
        (λ p w. reply_json 201 p (
          audit d
            (record {
              actor_user_id = some actor.id;
              action = "mail.identity.created";
              resource_type = "mail_identity";
              resource_id = p.identity.id;
            })
            w))
        (λ e w.
          if is_conflict e
          then reply_error 409 "conflict" w
          else reply_error 422 "provisioning_failed" w)

  -- `createMailIdentity`
  unfoldable pub create_mailbox : Text → Option CreateMailIdentityReq → Handler Provisioned
  unfolding on_domain provision_mailbox
  create_mailbox id body = on_domain id (λ x w.
      on (get_mail_domain_by_domain_id d x.id w)
        (λ m w.
          if is_active_mail m.status
          then with_body body (requested x) w
          else reply_error 409 "mail_not_active" w)
        (λ e w. reply_error 409 "mail_not_active" w))
    where
      for_member : DomainRow → Text → Text → World → Reply Provisioned × World
      for_member x user addr w =
          if is_empty user
          then provision_mailbox x user addr w
          else on (get_membership_role d x.organization_id user w)
              (λ role w. provision_mailbox x user addr w)
              (λ e w. reply_error 400 "invalid_request" w)

      addressed : DomainRow → Text → Checked Text → World → Reply Provisioned × World
      addressed x user (err e) w = reply_error 400 "invalid_request" w
      addressed x user (ok addr) w = for_member x user addr w

      requested : DomainRow → CreateMailIdentityReq → World → Reply Provisioned × World
      requested x req w =
          if d.has_chasquid
          then addressed x req.user_id (build_address d.to_ascii req.local_part x.fqdn) w
          else reply_error 422 "mail_unavailable" w

  -- `rotateMailCredential`
  unfoldable pub rotate_credential : Text → Handler Rotated
  unfolding require_org_role
  rotate_credential id w =
      on (get_mail_identity d id w)
        (λ m w. require_org_role d actor m.organization_id OrgRole.admin (renew m) w)
        (λ e w. reply_error 404 "not_found" w)
    where
      renew : MailIdentity → World → Reply Rotated × World
      renew m w =
          if d.has_chasquid
          then on (rotate d m w)
              (λ r w. reply_json 200 r (
                audit d
                  (record {
                    actor_user_id = some actor.id;
                    action = "mail.identity.credential_rotated";
                    resource_type = "mail_identity";
                    resource_id = m.id;
                  })
                  w))
              (λ e w. reply_error 422 "rotation_failed" w)
          else reply_error 422 "mail_unavailable" w
