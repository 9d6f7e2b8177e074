-- ===== src/Store/Organizations/Grants.antt =====
-- What `SetMembership` promises, as `GetMembershipRole` sees it.
use selfu.Base.{
  ◌≡◌, inl, inr, refl, true, false, Option, some, ◌∷◌, arith, Bool-cases, Text, ==_refl,
}
use mathlib.Core.Option
use selfu.Domain.Roles.{OrgRole, valid, default_role}
use selfu.Store.State.{World, Membership}
use selfu.Store.Exec.{StoreError, got, fails, Deps, draw, tick}
use selfu.Store.Exec.Tables.{find, update_where, exists}
use selfu.Store.Exec.Tables.Rows.{find-update_where_hit}
use selfu.Store.Organizations.{
  is_pair, pair_exists, upsert_membership, set_memberships, set_membership, get_membership_role,
}

-- The role that the table holds for the pair
abbrev pub role_of : World → Text → Text → Option OrgRole
role_of w org user = Option.map (λ m. m.role) (find (is_pair org user) w.memberships)

upsert_membership-role :
    (id org user : Text) (role : OrgRole) (w w' : World) (m : Membership)
    → upsert_membership id org user role w ≡ (got m, w')
    → (role_of w' org user ≡ some role) × (m.role ≡ role) × (pair_exists org user w ≡ true)
unfolding upsert_membership set_memberships
upsert_membership-role id org user role w w' m h = elim (Bool-cases (pair_exists org user w)) [
  | inr e ↦ ground arith
  | inl e ↦ elim (Bool-cases (exists (is_pair org user) w.memberships)) [
    | inl f ↦
        let (x, p, q) =
          find-update_where_hit (is_pair org user) (λ m. record m { role = role })
            (λ x p. unfold is_pair in p) w.memberships f in
        let rows : w'.memberships
            ≡ update_where (is_pair org user) (λ m. record m { role = role }) w.memberships =
          ground arith in
        (rw (rows, q) refl, ground arith, e)
    | inr f ↦
        let here : is_pair org user
              (record { id = id; organization_id = org; user_id = user; role = role })
            ≡ true =
          unfold is_pair in rw (==_refl org, ==_refl user) refl in
        let rows : w'.memberships
            ≡ record { id = id; organization_id = org; user_id = user; role = role }
              ∷ w.memberships =
          ground arith in
        (rw rows (unfold find in rw here refl), ground arith, e)
  ]
]

module _ (d : Deps) (org user : Text) (role : OrgRole) where
  -- After SetMembership succeeds, GetMembershipRole answers the role that was set (member if none was
  -- given), provided its own statement does not fail; the role is a valid one, and the organization
  -- and the user exist.
  pub set_membership-get :
      (w w' : World) (m : Membership)
      → set_membership d org user role w ≡ (got m, w')
      → (d.fails w'.calls ≡ false → (get_membership_role d org user w').0 ≡ got (default_role role))
        × (role_of w' org user ≡ some (default_role role))
        × (valid (default_role role) ≡ true)
        × (pair_exists org user w ≡ true)
  unfolding set_membership get_membership_role
  set_membership-get w w' m h = elim (Bool-cases (valid (default_role role))) [
    | inr v ↦ ground arith
    | inl v ↦
        let drawn = draw d w in
        let done : upsert_membership drawn.0 org user (default_role role) (tick drawn.1)
            ≡ (got m, w') =
          ground arith in
        let (r, s, known) =
          upsert_membership-role drawn.0 org user (default_role role) (tick drawn.1) w' m done in
        (λ ok. rw (ok, r) refl, r, v, unfold pair_exists in known)
  ]

  -- A call of SetMembership that fails leaves the memberships as they are.
  pub set_membership-fails :
      (w w' : World) (e : StoreError)
      → set_membership d org user role w ≡ (fails e, w')
      → w'.memberships ≡ w.memberships
  unfolding set_membership upsert_membership
  set_membership-fails w w' e h = ground arith
