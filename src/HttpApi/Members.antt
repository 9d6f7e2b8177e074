-- ===== src/HttpApi/Members.antt =====
-- Organizations, their members and their groups: the handlers of
-- internal/httpapi/identity_handlers.go on organizations.
use selfu.Base.{Bool, true, false, not, ◌&&◌, Option, some, Text, if◌then◌else◌, Checked, ok, err}
use selfu.Domain.Roles.{OrgRole, can_manage}
use selfu.Domain.Statuses.{ExternalStatus}
use selfu.Domain.Entities.{User, Organization, new_organization, Group, new_group}
use selfu.Store.State.{World, ResourceType, Membership}
use selfu.Store.Exec.{Deps, on}
use selfu.Store.Organizations.{
  create_organization, delete_organization, set_membership, get_membership_role,
}
use selfu.Store.Groups.{create_group, get_group_by_id, add_group_member}
use selfu.Store.Externals.{mapping, upsert_external_resource}
use selfu.HttpApi.{
  Reply, Handler, reply_error, reply_json, internal_error, with_body, is_not_found, is_conflict,
  audit, require_org_role,
}
use selfu.HttpApi.Seams.{ensure_group}

pub record AddMemberReq : Type 0 where
  pub user_id : Text
  pub role : OrgRole

pub record CreateGroupReq : Type 0 where
  pub name : Text
  pub description : Text

abbrev pub is_owner : OrgRole → Bool
is_owner OrgRole.owner = true
is_owner _ = false

abbrev pub is_admin_role : OrgRole → Bool
is_admin_role OrgRole.admin = true
is_admin_role _ = false

module _ (d : Deps) (actor : User) where
  -- `createOrganization`
  unfoldable pub create_org : Option Text → Handler Organization
  unfolding audit
  create_org body w =
      if actor.is_admin
      then with_body body (λ name w. go (new_organization name) w) w
      else reply_error 403 "forbidden" w
    where
      go : Checked Organization → World → Reply Organization × World
      go (err e) w = reply_error 400 "invalid_request" w
      go (ok o) w =
          on (create_organization d o w)
            (λ o w. reply_json 201 o (
              audit d
                (record {
                  actor_user_id = some actor.id;
                  action = "organization.created";
                  resource_type = "organization";
                  resource_id = o.id;
                })
                w))
            (λ e w. if is_conflict e then reply_error 409 "conflict" w else internal_error w)

  -- `addOrganizationMember`
  unfoldable pub add_organization_member : Text → Option AddMemberReq → Handler Membership
  unfolding require_org_role
  add_organization_member org body = with_body body (λ req.
      require_org_role d actor org OrgRole.admin (λ w.
        on (get_membership_role d org actor.id w) (λ role w. checked req role w)
          (λ e w. internal_error w)))
    where
      finish : AddMemberReq → World → Reply Membership × World
      finish req w =
          on (set_membership d org req.user_id req.role w)
            (λ m w. reply_json 200 m (
              audit d
                (record {
                  actor_user_id = some actor.id;
                  action = "organization.member_added";
                  resource_type = "organization";
                  resource_id = org;
                })
                w))
            (λ e w. internal_error w)

      checked : AddMemberReq → OrgRole → World → Reply Membership × World
      checked req role w =
          if is_owner req.role && not (can_manage role OrgRole.owner)
          then reply_error 403 "forbidden" w
          else if is_admin_role req.role && not (can_manage role OrgRole.admin)
          then reply_error 403 "forbidden" w
          else finish req w

  -- The group that mirrors a new one in authentik: errors are logged or dropped.
  unfoldable pub mirror_group : Group → World → World
  mirror_group g w =
      if d.has_identity
      then on (ensure_group d g.slug w)
          (λ pk w.
            (upsert_external_resource d
              (mapping ResourceType.authentik_group g.id d.provider_name pk ExternalStatus.active)
              w).1)
          (λ e w. w)
      else w

  -- `createGroup`
  unfoldable pub create_org_group : Text → Option CreateGroupReq → Handler Group
  unfolding require_org_role mirror_group
  create_org_group org body =
      require_org_role d actor org OrgRole.admin
        (with_body body (λ req w. go (new_group org req.name req.description) w))
    where
      go : Checked Group → World → Reply Group × World
      go (err e) w = reply_error 400 "invalid_request" w
      go (ok g) w =
          on (create_group d g w)
            (λ g w. reply_json 201 g (
              audit d
                (record {
                  actor_user_id = some actor.id;
                  action = "group.created";
                  resource_type = "group";
                  resource_id = g.id;
                })
                (mirror_group g w)))
            (λ e w. if is_conflict e then reply_error 409 "conflict" w else internal_error w)

  -- `addGroupMember`
  unfoldable pub add_member_to_group : Text → Option Text → Handler (Unit {0})
  unfolding require_org_role
  add_member_to_group id body = with_body body (λ user w.
      on (get_group_by_id d id w)
        (λ g w.
          require_org_role d actor g.organization_id OrgRole.admin
            (λ w.
              on (add_group_member d g.id user w) (λ u w. reply_json 200 tt w)
                (λ e w. internal_error w))
            w)
        (λ e w. reply_error 404 "not_found" w))

  -- `deleteOrganization`
  unfoldable pub delete_org : Text → Handler (Unit {0})
  delete_org id w =
      if actor.is_admin
      then on (delete_organization d id w)
          (λ u w. reply_json 200 tt (
            audit d
              (record {
                actor_user_id = some actor.id;
                action = "organization.deleted";
                resource_type = "organization";
                resource_id = id;
              })
              w))
          (λ e w. if is_not_found e then reply_error 404 "not_found" w else internal_error w)
      else reply_error 403 "forbidden" w
