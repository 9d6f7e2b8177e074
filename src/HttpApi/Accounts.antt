-- ===== src/HttpApi/Accounts.antt =====
-- Users and platform admins: the handlers of internal/httpapi/identity_handlers.go on users.
pub mod Admins
pub mod Leavers
use selfu.Base.{
  ℕ, Bool, true, false, not, ◌&&◌, ◌||◌, Option, none, some, List, [], ◌∷◌, Text, ◌==◌,
  if◌then◌else◌, is_empty, leb,
}
use selfu.Domain.Roles.{OrgRole, valid, default_role}
use selfu.Domain.Statuses.{UserStatus, ExternalStatus}
use selfu.Domain.Entities.{User}
use selfu.Store.State.{World, AuditEvent, ResourceType, ExternalResource}
use selfu.Store.Exec.{StoreError, Result, got, fails, Deps, on}
use selfu.Store.Users.{create_user, set_user_status, set_user_admin, admin_count}
use selfu.Store.Organizations.{set_membership, remove_all_memberships}
use selfu.Store.Groups.{add_group_member, remove_all_group_memberships}
use selfu.Store.Externals.{mapping, upsert_external_resource, get_external_resource}
use selfu.HttpApi.{
  Reply, problem, json, Handler, reply_error, reply_json, internal_error, with_body, is_not_found,
  is_conflict, audit,
}
use selfu.HttpApi.Seams.{ensure_user, set_user_active}

pub record CreateUserReq : Type 0 where
  pub email : Text
  pub display_name : Text
  pub organization_id : Text
  pub group_ids : List Text
  pub role : OrgRole

-- `if role == "" || !role.Valid() { role = RoleMember }`
unfoldable pub role_or_member : OrgRole → OrgRole
role_or_member r = if valid r then r else OrgRole.member

-- The count that the guard of `setUserAdmin` reads: its error is dropped, and the count is then 0.
abbrev pub count_or_zero : Result ℕ × World → ℕ × World
count_or_zero (got n, w) = (n, w)
count_or_zero (fails e, w) = (0, w)

module _ (d : Deps) (actor : User) where
  admin_only : {A : Type 0} → Handler A → Handler A
  admin_only next w = if actor.is_admin then next w else reply_error 403 "forbidden" w

  event : AuditEvent → World → World
  event e w = audit d e w

  add_to_groups : List Text → Text → World → World
  add_to_groups [] user w = w
  add_to_groups (group ∷ rest) user w = add_to_groups rest user (add_group_member d group user w).1

  -- Step 4 of `createUser`: errors are logged.
  unfoldable pub enroll : CreateUserReq → User → World → World
  unfolding add_to_groups role_or_member
  enroll req user w =
      if is_empty req.organization_id
      then w
      else add_to_groups req.group_ids user.id
          (set_membership d req.organization_id user.id (role_or_member req.role) w).1

  -- `createUser`
  unfoldable pub create_account : Option CreateUserReq → Handler User
  unfolding admin_only event enroll
  create_account body = admin_only (
      with_body body (λ req w.
        if is_empty req.email
        then reply_error 400 "invalid_request" w
        else if d.has_identity
        then on (ensure_user d req.email w) (λ pk w. create req pk w)
            (λ e w. reply_error 422 "provisioning_failed" w)
        else reply_error 500 "internal_error" w))
    where
      finish : CreateUserReq → Text → User → World → Reply User × World
      finish req pk user w =
          let mapped =
            (upsert_external_resource d
              (mapping ResourceType.authentik_user user.id d.provider_name pk ExternalStatus.active)
              w).1 in
          reply_json 201 user (
            event
              (record {
                actor_user_id = some actor.id;
                action = "user.created";
                resource_type = "user";
                resource_id = user.id;
              })
              (enroll req user mapped))

      create : CreateUserReq → Text → World → Reply User × World
      create req pk w =
          on (create_user d req.email req.display_name d.provider_name pk w)
            (λ user w. finish req pk user w)
            (λ e w. if is_conflict e then reply_error 409 "conflict" w else internal_error w)

  -- Best effort: the identity in authentik follows if there is a mapping and a provisioner.
  unfoldable pub mirror_active : Text → Bool → World → World
  mirror_active id active w =
      on (get_external_resource d ResourceType.authentik_user id w)
        (λ r w. if d.has_identity then (set_user_active d r.external_id active w).1 else w)
        (λ e w. w)

  -- `disableUser`; the reply's body is the status
  unfoldable pub disable_user : Text → Handler UserStatus
  unfolding admin_only event mirror_active
  disable_user id = admin_only (λ w.
      on (set_user_status d id UserStatus.disabled (mirror_active id false w))
        (λ u w.
          let left = (remove_all_group_memberships d id (remove_all_memberships d id w).1).1 in
          reply_json 200 UserStatus.disabled (
            event
              (record {
                actor_user_id = some actor.id;
                action = "user.disabled";
                resource_type = "user";
                resource_id = id;
              })
              left))
        (λ e w. if is_not_found e then reply_error 404 "not_found" w else internal_error w))

  -- `enableUser`
  unfoldable pub enable_user : Text → Handler UserStatus
  unfolding admin_only event mirror_active
  enable_user id = admin_only (λ w.
      on (set_user_status d id UserStatus.active (mirror_active id true w))
        (λ u w. reply_json 200 UserStatus.active (
          event
            (record {
              actor_user_id = some actor.id;
              action = "user.enabled";
              resource_type = "user";
              resource_id = id;
            })
            w))
        (λ e w. if is_not_found e then reply_error 404 "not_found" w else internal_error w))

  -- `setUserAdmin`
  unfoldable pub toggle_admin : Text → Option Bool → Handler Bool
  unfolding admin_only event
  toggle_admin id body = admin_only (with_body body guarded)
    where
      apply : Bool → World → Reply Bool × World
      apply wanted w =
          on (set_user_admin d id wanted w)
            (λ u w. reply_json 200 wanted (
              event
                (record {
                  actor_user_id = some actor.id;
                  action = "user.admin_updated";
                  resource_type = "user";
                  resource_id = id;
                })
                w))
            (λ e w. if is_not_found e then reply_error 404 "not_found" w else internal_error w)

      demote : ℕ × World → Reply Bool × World
      demote (n, w) = if leb n 1 then reply_error 409 "last_admin" w else apply false w

      guarded : Bool → World → Reply Bool × World
      guarded true w = apply true w
      guarded false w =
          if id == actor.id
          then reply_error 400 "invalid_request" w
          else demote (count_or_zero (admin_count d w))
