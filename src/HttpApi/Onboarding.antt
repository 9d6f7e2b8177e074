-- ===== src/HttpApi/Onboarding.antt =====
-- Onboarding a member in one call: internal/httpapi/onboard_handlers.go.
pub mod Grants
use selfu.Base.{
  Bool, Option, none, some, List, [], ◌∷◌, Text, ◌==◌, if◌then◌else◌, is_empty, Checked, ok, err,
  trim_space, to_lower,
}
use selfu.Domain.Roles.{OrgRole, valid, default_role}
use selfu.Domain.Statuses.{MailIdentityStatus, is_verified, is_active_mail}
use selfu.Domain.Addresses.{build_address}
use selfu.Domain.Entities.{User, DomainRow, Group}
use selfu.Store.State.{World, MailIdentity, Membership}
use selfu.Store.Exec.{Deps, on}
use selfu.Store.Organizations.{set_membership}
use selfu.Store.Groups.{get_group_by_id, add_group_member}
use selfu.Store.Domains.{list_domains_by_org}
use selfu.Store.Mail.{get_mail_domain_by_domain_id, get_mail_identity_by_address}
use selfu.HttpApi.{
  Reply, problem, json, Handler, reply_error, reply_json, internal_error, with_body, is_conflict,
  audit, require_org_role,
}
use selfu.HttpApi.Seams.{ensure_platform_user}
use selfu.HttpApi.Invitations.{guard_owner}
use selfu.Provision.{provisioner, local_part_of}

pub record OnboardReq : Type 0 where
  pub email : Text
  pub display_name : Text
  pub role : OrgRole
  pub group_id : Text
  pub provision_mailbox : Bool
  pub local_part : Text

-- The mailbox of a request: none asked for, one that exists, or one to make in a domain.
pub data Mailbox : Type 0 where
  unasked : Mailbox
  existing : MailIdentity → Mailbox
  wanted : DomainRow → Text → Mailbox

pub record OnboardResp : Type 0 where
  pub user : User
  pub membership : Membership
  pub group : Option Group
  pub identity : Option MailIdentity
  pub secret : Option Text

module _ (d : Deps) where
  -- The loop of `activeOrgMailDomain`
  unfoldable pub first_active : List DomainRow → World → Option DomainRow × World
  first_active [] w = (none, w)
  first_active (x ∷ rest) w =
      if is_verified x.status
      then on (get_mail_domain_by_domain_id d x.id w)
          (λ m w.
            let later = first_active rest w in
            if is_active_mail m.status then (some x, w) else later)
          (λ e w. first_active rest w)
      else first_active rest w

  -- `activeOrgMailDomain`
  unfoldable pub active_org_mail_domain : Text → World → Option DomainRow × World
  unfolding first_active
  active_org_mail_domain org w =
      on (list_domains_by_org d org w) (λ rows w. first_active rows w) (λ e w. (none, w))

module _ (d : Deps) (actor : User) (org : Text) where
  -- The mailbox that a request asks for, found before anything is created
  unfoldable pub resolve_mailbox : OnboardReq → Text → Handler Mailbox
  resolve_mailbox req email w =
      if req.provision_mailbox
      then at_domain (active_org_mail_domain d org w)
      else reply_json 200 unasked w
    where
      lookup : DomainRow → Checked Text → World → Reply Mailbox × World
      lookup x (err e) w = reply_error 400 "invalid_request" w
      lookup x (ok addr) w =
          on (get_mail_identity_by_address d addr w) (λ m w. reply_json 200 (existing m) w)
            (λ e w. reply_json 200 (wanted x addr) w)

      at_domain : Option DomainRow × World → Reply Mailbox × World
      at_domain (none, w) = reply_error 422 "no_mail_domain" w
      at_domain (some x, w) =
          if d.has_mail_provision
          then lookup x
              (build_address d.to_ascii
                (if is_empty req.local_part then local_part_of email else req.local_part) x.fqdn)
              w
          else reply_error 422 "mail_unavailable" w

  -- The last steps: the mailbox, the audit event and the reply
  unfoldable pub finish_onboarding :
      User → Membership → Option Group → Mailbox → Handler OnboardResp
  finish_onboarding user m group box w = go box
    where
      reply : Option MailIdentity → Option Text → World → Reply OnboardResp × World
      reply identity secret w =
          reply_json 200
            (record {
              user = user;
              membership = m;
              group = group;
              identity = identity;
              secret = secret;
            })
            (audit d
              (record {
                actor_user_id = some actor.id;
                action = "user.onboarded";
                resource_type = "organization";
                resource_id = org;
              })
              w)

      go : Mailbox → Reply OnboardResp × World
      go unasked = reply none none w
      go (existing i) = reply (some i) none w
      go (wanted x addr) =
          on
            (provisioner d
              (record {
                id = [];
                organization_id = org;
                user_id = some user.id;
                domain_id = x.id;
                local_part = local_part_of addr;
                address = addr;
                chasquid_username = addr;
                status = MailIdentityStatus.provisioning;
              })
              w)
            (λ p w. reply (some p.identity) (some p.secret) w)
            (λ e w.
              if is_conflict e
              then reply_error 409 "conflict" w
              else reply_error 422 "provisioning_failed" w)

  -- The group of the request, if it names one
  unfoldable pub join_group : OnboardReq → User → Membership → Mailbox → Handler OnboardResp
  unfolding finish_onboarding
  join_group req user m box w =
      if is_empty req.group_id
      then finish_onboarding user m none box w
      else on (get_group_by_id d req.group_id w)
          (λ g w.
            if g.organization_id == org
            then on (add_group_member d g.id user.id w)
                (λ u w. finish_onboarding user m (some g) box w) (λ e w. internal_error w)
            else reply_error 400 "invalid_group" w)
          (λ e w. reply_error 400 "invalid_group" w)

  -- The user and the membership
  unfoldable pub enroll_member :
      OnboardReq → Text → Reply Mailbox × World → Reply OnboardResp × World
  unfolding join_group
  enroll_member req email (problem status code, w) = reply_error status code w
  enroll_member req email (json status box, w) =
      on (ensure_platform_user d email req.display_name w)
        (λ made w.
          on (set_membership d org made.0.id (default_role req.role) w)
            (λ m w. join_group req made.0 m box w) (λ e w. internal_error w))
        (λ e w. if is_conflict e then reply_error 409 "conflict" w else internal_error w)

  -- The part of `onboardUser` after the body is decoded
  unfoldable pub request_onboarding : OnboardReq → Handler OnboardResp
  unfolding guard_owner resolve_mailbox enroll_member
  request_onboarding req w =
      if is_empty (to_lower (trim_space req.email))
      then reply_error 400 "invalid_request" w
      else if valid (default_role req.role)
      then guard_owner d actor org (default_role req.role)
          (λ w.
            enroll_member req (to_lower (trim_space req.email))
              (resolve_mailbox req (to_lower (trim_space req.email)) w))
          w
      else reply_error 400 "invalid_request" w

  -- `onboardUser`
  unfoldable pub onboard_user : Option OnboardReq → Handler OnboardResp
  unfolding require_org_role request_onboarding
  onboard_user body =
      require_org_role d actor org OrgRole.admin
        (with_body body (λ req w. request_onboarding req w))
