-- ===== src/HttpApi/Invitations.antt =====
-- Invitations: internal/httpapi/invite_handlers.go. The time of a request is one value of `now`.
pub mod Redeem
pub mod Redeemed
pub mod Owners
pub mod Pending
use selfu.Base.{
  ℕ, ◌+◌, Bool, true, false, not, ◌&&◌, ◌||◌, Option, none, some, List, [], ◌∷◌, Text, ◌==◌,
  if◌then◌else◌, is_empty, ltb, length, trim_space, to_lower,
}
use selfu.Domain.Roles.{OrgRole, can_manage, valid, default_role}
use selfu.Domain.Entities.{User}
use selfu.Store.State.{World, AuditEvent, ResourceType, Invite, ExternalResource}
use selfu.Store.Exec.{StoreError, Result, got, fails, Deps, draw, on}
use selfu.Store.Organizations.{set_membership, get_membership_role}
use selfu.Store.Externals.{get_external_resource}
use selfu.Store.Invites.{
  is_open, create_invite, expire_pending_invites, get_invite_by_token_hash, consume_invite,
}
use selfu.HttpApi.{
  Reply, problem, json, Handler, reply_error, reply_json, internal_error, with_body, is_not_found,
  is_conflict, audit, require_org_role,
}
use selfu.HttpApi.Seams.{set_user_password, ensure_platform_user}
use selfu.HttpApi.Members.{is_owner}

-- `inviteTTL`, in seconds
abbrev pub invite_ttl : ℕ
invite_ttl = 604800

abbrev pub min_invite_password_len : ℕ
min_invite_password_len = 8

pub record CreateInviteReq : Type 0 where
  pub email : Text
  pub display_name : Text
  pub role : OrgRole

pub record CreateInviteResp : Type 0 where
  pub user : User
  pub invite : Invite
  pub token : Text

pub record AcceptInviteReq : Type 0 where
  pub token : Text
  pub password : Text

pub record Accepted : Type 0 where
  pub organization_id : Text
  pub role : OrgRole

-- `inv.AcceptedAt != nil || time.Now().After(inv.ExpiresAt)`
unfoldable pub is_spent : ℕ → Invite → Bool
is_spent now i = not (is_open i.accepted_at) || ltb i.expires_at now

module _ (d : Deps) where
  -- The guard on the owner role of `createInvite` and `onboardUser`
  unfoldable pub guard_owner {ℓ} : {A : Type ℓ} → User → Text → OrgRole → Handler A → Handler A
  unfolding get_membership_role
  guard_owner actor org role next w =
      if is_owner role && not actor.is_admin
      then on (get_membership_role d org actor.id w)
          (λ held w.
            if can_manage held OrgRole.owner then next w else reply_error 403 "forbidden" w)
          (λ e w. reply_error 403 "forbidden" w)
      else next w

  unfoldable pub invite_row : User → Text → OrgRole → User → Text → Text → ℕ → Invite
  invite_row actor org role user token id now = record {
    id = id;
    organization_id = org;
    user_id = user.id;
    token_hash = d.sha256_hex token;
    role = role;
    invited_by = actor.id;
    expires_at = now + invite_ttl;
    accepted_at = none;
  }

  -- The part of `createInvite` after the user is known
  unfoldable pub issue_invite : User → Text → OrgRole → User → Handler CreateInviteResp
  unfolding invite_row
  issue_invite actor org role user w =
      on (get_membership_role d org user.id w) (λ held w. reply_error 409 "conflict" w)
        (λ e w.
          on (expire_pending_invites d org user.id w) (λ u w. insert (draw d w))
            (λ e w. internal_error w))
    where
      insert : Text × World → Reply CreateInviteResp × World
      insert (token, w) =
          let drawn = draw d w in
          on (create_invite d (invite_row actor org role user token drawn.0 w.now) drawn.1)
            (λ i w.
              reply_json 200 (record { user = user; invite = i; token = token })
                (audit d
                  (record {
                    actor_user_id = some actor.id;
                    action = "user.invited";
                    resource_type = "organization";
                    resource_id = org;
                  })
                  w))
            (λ e w. internal_error w)

  -- The part of `createInvite` after the body is decoded
  unfoldable pub request_invite : User → Text → CreateInviteReq → Handler CreateInviteResp
  unfolding guard_owner issue_invite
  request_invite actor org req w =
      if is_empty (to_lower (trim_space req.email))
      then reply_error 400 "invalid_request" w
      else if valid (default_role req.role)
      then guard_owner actor org (default_role req.role)
          (λ w.
            on (ensure_platform_user d (to_lower (trim_space req.email)) req.display_name w)
              (λ made w. issue_invite actor org (default_role req.role) made.0 w)
              (λ e w. internal_error w))
          w
      else reply_error 400 "invalid_request" w

  -- `createInvite`
  unfoldable pub create_invitation : User → Text → Option CreateInviteReq → Handler CreateInviteResp
  unfolding require_org_role request_invite
  create_invitation actor org body =
      require_org_role d actor org OrgRole.admin
        (with_body body (λ req w. request_invite actor org req w))

  -- The part of `acceptInvite` after the password is set
  unfoldable pub redeem : Text → Handler Accepted
  redeem id w =
      on (consume_invite d id w)
        (λ i w.
          on (set_membership d i.organization_id i.user_id i.role w)
            (λ m w.
              reply_json 200 (record { organization_id = i.organization_id; role = i.role })
                (audit d
                  (record {
                    actor_user_id = none;
                    action = "user.activated";
                    resource_type = "user";
                    resource_id = i.user_id;
                  })
                  w))
            (λ e w. internal_error w))
        (λ e w. if is_conflict e then reply_error 409 "invite_used" w else internal_error w)

  -- The part of `acceptInvite` that sets the password of a redeemable invite
  unfoldable pub set_password_then : Text → Invite → Handler Accepted
  unfolding redeem
  set_password_then password i w =
      on (get_external_resource d ResourceType.authentik_user i.user_id w)
        (λ r w.
          if is_empty r.external_id
          then reply_error 503 "password_unavailable" w
          else if d.has_password_setter
          then on (set_user_password d r.external_id password w) (λ u w. redeem i.id w)
              (λ e w. reply_error 502 "password_set_failed" w)
          else reply_error 503 "password_unavailable" w)
        (λ e w. reply_error 503 "password_unavailable" w)

  -- `acceptInvite`
  unfoldable pub accept_invitation : Option AcceptInviteReq → Handler Accepted
  unfolding set_password_then is_spent
  accept_invitation body = with_body body (λ req w.
      if is_empty (trim_space req.token) || ltb (length req.password) min_invite_password_len
      then reply_error 400 "invalid_request" w
      else on (get_invite_by_token_hash d (d.sha256_hex (trim_space req.token)) w)
          (λ i w.
            if is_spent w.now i
            then reply_error 400 "invalid_invite" w
            else set_password_then req.password i w)
          (λ e w. if is_not_found e then reply_error 400 "invalid_invite" w else internal_error w))
