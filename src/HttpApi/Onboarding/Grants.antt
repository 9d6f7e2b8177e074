-- ===== src/HttpApi/Onboarding/Grants.antt =====
-- The roles that onboarding hands out.
use selfu.Base.{
  ℕ, ◌≡◌, ◌⊎◌, inl, inr, refl, true, some, Bool-cases, Text, is_empty, to_lower, trim_space,
}
use selfu.Domain.Roles.{OrgRole, valid, default_role}
use selfu.Domain.Entities.{User}
use selfu.Store.State.{World}
use selfu.Store.Exec.{Deps}
use selfu.Store.Organizations.Grants.{role_of}
use selfu.HttpApi.{json, problem-ne_json}
use selfu.HttpApi.Access.{MayAct, require_org_role-json}
use selfu.HttpApi.Invitations.Owners.{guard_owner-as_owner, role_of-tick}
use selfu.HttpApi.Onboarding.{
  OnboardReq, OnboardResp, resolve_mailbox, enroll_member, request_onboarding, onboard_user,
}

module _ (d : Deps) (actor : User) (org : Text) (req : OnboardReq) where
  requested :
      (w w' : World) (status : ℕ) (r : OnboardResp)
      → req.role ≡ OrgRole.owner
      → request_onboarding d actor org req w ≡ (json status r, w')
      → (actor.is_admin ≡ true) ⊎ (role_of w org actor.id ≡ some OrgRole.owner)
  unfolding request_onboarding
  requested w w' status r o h = elim (Bool-cases (is_empty (to_lower (trim_space req.email)))) [
    | inl e ↦ absurd (problem-ne_json (rw e at h))
    | inr e ↦ elim (Bool-cases (valid (default_role req.role))) [
      | inr v ↦ absurd (problem-ne_json (rw (e, v) at h))
      | inl v ↦
          guard_owner-as_owner d actor org
            (λ w.
              enroll_member d actor org req (to_lower (trim_space req.email))
                (resolve_mailbox d actor org req (to_lower (trim_space req.email)) w))
            (default_role req.role) w w' status r (unfold default_role in rw o refl)
            (rw (e, v) at h)
    ]
  ]

  -- Only a platform admin or an owner of the organization onboards someone with the owner role, and
  -- whoever onboards anyone is a platform admin or has a sufficient role in the organization.
  pub onboard_user-owner :
      (w w' : World) (status : ℕ) (r : OnboardResp)
      → onboard_user d actor org (some req) w ≡ (json status r, w')
      → MayAct actor org OrgRole.admin w
        × (req.role ≡ OrgRole.owner
            → (actor.is_admin ≡ true) ⊎ (role_of w org actor.id ≡ some OrgRole.owner))
  unfolding onboard_user
  onboard_user-owner w w' status r h =
      let (may, (w1, same, ran)) =
        require_org_role-json d actor org OrgRole.admin (request_onboarding d actor org req) w w'
          status r h in
      (may, λ o. role_of-tick d actor org w w1 same (requested w1 w' status r o ran))
