-- ===== src/HttpApi/Access.antt =====
-- Who gets past `requireOrgRole`.
use selfu.Base.{ℕ, ◌≡◌, ◌⊎◌, inl, inr, refl, true, some, String, Bool-cases, Option-cases, Text}
use selfu.Domain.Roles.{OrgRole, can_manage}
use selfu.Domain.Entities.{User}
use selfu.Store.State.{World}
use selfu.Store.Exec.{Deps, tick}
use selfu.Store.Organizations.{get_membership_role}
use selfu.Store.Organizations.Grants.{role_of}
use selfu.HttpApi.{problem, json, Handler, require_org_role, problem-ne_json}

-- A platform admin, or a member whose role suffices
abbrev pub MayAct : User → Text → OrgRole → World → Type 0
MayAct actor org required w =
    (actor.is_admin ≡ true)
    ⊎ ((role : OrgRole) × (role_of w org actor.id ≡ some role) × (can_manage role required ≡ true))

module _ {ℓ} {A : Type ℓ} (d : Deps) (actor : User) (org : Text) (required : OrgRole)
    (next : Handler A) where
  -- A handler behind requireOrgRole answers anything but an error only if the actor is a platform
  -- admin or holds a role in the organization that suffices; the rest of the handler then ran on the
  -- state of the request, with at most one more statement counted.
  pub require_org_role-json :
      (w w' : World) (status : ℕ) (a : A)
      → require_org_role d actor org required next w ≡ (json status a, w')
      → MayAct actor org required w
        × ((w1 : World) × ((w1 ≡ w) ⊎ (w1 ≡ tick w)) × (next w1 ≡ (json status a, w')))
  unfolding require_org_role get_membership_role
  require_org_role-json w w' status a h = elim (Bool-cases actor.is_admin) [
    | inl e ↦ (inl e, (w, inl refl, rw e at h))
    | inr e ↦ elim (Bool-cases (d.fails w.calls)) [
      | inl f ↦ absurd (problem-ne_json (rw (e, f) at h))
      | inr f ↦ elim (Option-cases (role_of w org actor.id)) [
        | inl r ↦ absurd (problem-ne_json (rw (e, f, r) at h))
        | inr (role, r) ↦ elim (Bool-cases (can_manage role required)) [
          | inl c ↦ (inr (role, r, c), (tick w, inr refl, rw (e, f, r, c) at h))
          | inr c ↦ absurd (problem-ne_json (rw (e, f, r, c) at h))
        ]
      ]
    ]
  ]

  -- What a guard does: the handler goes on, or is refused with nothing but a statement counted.
  pub require_org_role-cases :
      (w : World)
      → (w1 : World) × ((w1 ≡ w) ⊎ (w1 ≡ tick w))
        × ((MayAct actor org required w × (require_org_role d actor org required next w ≡ next w1))
            ⊎ ((status : ℕ) × (code : String) × (require_org_role d actor org required next w
                  ≡ (problem status code, w1))))
  unfolding require_org_role get_membership_role
  require_org_role-cases w = elim (Bool-cases actor.is_admin) [
    | inl e ↦ (w, inl refl, inl (inl e, rw e refl))
    | inr e ↦ elim (Bool-cases (d.fails w.calls)) [
      | inl f ↦ (tick w, inr refl, inr (500, "internal_error", rw (e, f) refl))
      | inr f ↦ elim (Option-cases (role_of w org actor.id)) [
        | inl r ↦ (tick w, inr refl, inr (403, "forbidden", rw (e, f, r) refl))
        | inr (role, r) ↦ elim (Bool-cases (can_manage role required)) [
          | inl c ↦ (tick w, inr refl, inl (inr (role, r, c), rw (e, f, r, c) refl))
          | inr c ↦ (tick w, inr refl, inr (403, "forbidden", rw (e, f, r, c) refl))
        ]
      ]
    ]
  ]
