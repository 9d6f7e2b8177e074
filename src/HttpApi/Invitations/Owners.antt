-- ===== src/HttpApi/Invitations/Owners.antt =====
-- Who may hand out the owner role: the guard that `createInvite` and `onboardUser` share.
use selfu.Base.{
  ℕ, ◌≡◌, ◌⊎◌, inl, inr, true, some, Bool-cases, Option-cases, Text, is_empty, to_lower, trim_space,
}
use selfu.Domain.Roles.{OrgRole, can_manage, can_manage-owner, valid, default_role}
use selfu.Domain.Entities.{User}
use selfu.Store.State.{World}
use selfu.Store.Exec.{Deps, tick, on}
use selfu.Store.Organizations.{get_membership_role}
use selfu.Store.Organizations.Grants.{role_of}
use selfu.HttpApi.{json, Handler, problem-ne_json, internal_error}
use selfu.HttpApi.Seams.{ensure_platform_user}
use selfu.HttpApi.Access.{require_org_role-json}
use selfu.HttpApi.Invitations.{
  CreateInviteReq, CreateInviteResp, guard_owner, issue_invite, request_invite, create_invitation,
}

module _ {ℓ} {A : Type ℓ} (d : Deps) (actor : User) (org : Text) (next : Handler A) where
  -- Only a platform admin or an owner of the organization gets past the guard with the owner role.
  pub guard_owner-json :
      (w w' : World) (status : ℕ) (a : A)
      → guard_owner d actor org OrgRole.owner next w ≡ (json status a, w')
      → (actor.is_admin ≡ true) ⊎ (role_of w org actor.id ≡ some OrgRole.owner)
  unfolding guard_owner get_membership_role
  guard_owner-json w w' status a h = elim (Bool-cases actor.is_admin) [
    | inl e ↦ inl e
    | inr e ↦ elim (Bool-cases (d.fails w.calls)) [
      | inl up ↦ absurd (problem-ne_json (rw (e, up) at h))
      | inr up ↦ elim (Option-cases (role_of w org actor.id)) [
        | inl r ↦ absurd (problem-ne_json (rw (e, up, r) at h))
        | inr (role, r) ↦ elim (Bool-cases (can_manage role OrgRole.owner)) [
          | inr c ↦ absurd (problem-ne_json (rw (e, up, r, c) at h))
          | inl c ↦ inr (rw (← can_manage-owner role c) r)
        ]
      ]
    ]
  ]

  pub guard_owner-as_owner :
      (role : OrgRole) (w w' : World) (status : ℕ) (a : A)
      → role ≡ OrgRole.owner
      → guard_owner d actor org role next w ≡ (json status a, w')
      → (actor.is_admin ≡ true) ⊎ (role_of w org actor.id ≡ some OrgRole.owner)
  guard_owner-as_owner role w w' status a o h = guard_owner-json w w' status a (rw o at h)

module _ (d : Deps) (actor : User) (org : Text) where
  pub role_of-tick :
      (w w1 : World)
      → (w1 ≡ w) ⊎ (w1 ≡ tick w)
      → (actor.is_admin ≡ true) ⊎ (role_of w1 org actor.id ≡ some OrgRole.owner)
      → (actor.is_admin ≡ true) ⊎ (role_of w org actor.id ≡ some OrgRole.owner)
  role_of-tick w w1 (inl e) h = rw e at h
  role_of-tick w w1 (inr e) h = rw e at h

  requested :
      (req : CreateInviteReq) (w w' : World) (status : ℕ) (r : CreateInviteResp)
      → req.role ≡ OrgRole.owner
      → request_invite d actor org req w ≡ (json status r, w')
      → (actor.is_admin ≡ true) ⊎ (role_of w org actor.id ≡ some OrgRole.owner)
  unfolding request_invite valid default_role
  requested req w w' status r o h = elim (Bool-cases (is_empty (to_lower (trim_space req.email)))) [
    | inl e ↦ absurd (problem-ne_json (rw e at h))
    | inr e ↦
        guard_owner-json d actor org
          (λ w.
            on (ensure_platform_user d (to_lower (trim_space req.email)) req.display_name w)
              (λ made w. issue_invite d actor org OrgRole.owner made.0 w) (λ e w. internal_error w))
          w w' status r (rw (e, o) at h)
  ]

  -- An invitation with the owner role is issued only by a platform admin or an owner of the
  -- organization.
  pub create_invitation-owner :
      (req : CreateInviteReq) (w w' : World) (status : ℕ) (r : CreateInviteResp)
      → req.role ≡ OrgRole.owner
      → create_invitation d actor org (some req) w ≡ (json status r, w')
      → (actor.is_admin ≡ true) ⊎ (role_of w org actor.id ≡ some OrgRole.owner)
  unfolding create_invitation
  create_invitation-owner req w w' status r o h =
      let (may, (w1, same, ran)) =
        require_org_role-json d actor org OrgRole.admin (request_invite d actor org req) w w' status
          r h in
      role_of-tick w w1 same (requested req w1 w' status r o ran)
