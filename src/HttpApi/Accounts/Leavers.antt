-- ===== src/HttpApi/Accounts/Leavers.antt =====
-- Disabling a user: what `disableUser` promises.
use selfu.Base.{ℕ, ◌≡◌, inl, inr, refl, true, false, some, arith, Bool-cases, Text, ◌==◌}
use selfu.Domain.Statuses.{UserStatus}
use selfu.Domain.Entities.{User}
use selfu.Store.State.{World, AuditEvent}
use selfu.Store.Exec.{got, Deps, Result-cases}
use selfu.Store.Exec.Tables.{find, count, exists, update_where}
use selfu.Store.Exec.Tables.Rows.{count-delete_where, find-update_where_hit}
use selfu.Store.Users.{set_users, set_user_status}
use selfu.Store.Organizations.{remove_all_memberships, set_memberships}
use selfu.Store.Groups.{remove_all_group_memberships, set_group_memberships}
use selfu.HttpApi.{json, audit, problem-ne_json}
use selfu.HttpApi.Frames.{audit-world}
use selfu.HttpApi.Accounts.{disable_user, mirror_active}

abbrev disabled_event : User → Text → AuditEvent
disabled_event actor id = record {
  actor_user_id = some actor.id;
  action = "user.disabled";
  resource_type = "user";
  resource_id = id;
}

-- The tables after both removals, when neither statement fails.
stripped :
    (d : Deps) (id : Text) (w : World)
    → ((n : ℕ) → d.fails n ≡ false)
    → (count
          (λ m. m.user_id == id)
          (remove_all_group_memberships d id (remove_all_memberships d id w).1).1.memberships
        ≡ 0)
      × (count
            (λ m. m.user_id == id)
            (remove_all_group_memberships d id
              (remove_all_memberships d id w).1).1.group_memberships
          ≡ 0)
      × ((remove_all_group_memberships d id (remove_all_memberships d id w).1).1.users ≡ w.users)
unfolding remove_all_group_memberships remove_all_memberships set_memberships set_group_memberships
stripped d id w up =
    rw (up, up)
      (
        count-delete_where (λ m. m.user_id == id) w.memberships,
        count-delete_where (λ m. m.user_id == id) w.group_memberships,
        refl,
      )

set_user_status-rows :
    (d : Deps) (id : Text) (status : UserStatus) (w w' : World) (u : Unit {0})
    → set_user_status d id status w ≡ (got u, w')
    → (x : User) × (find (λ y. y.id == id) w'.users ≡ some (record x { status = status }))
unfolding set_user_status set_users
set_user_status-rows d id status w w' u h = elim (Bool-cases (exists (λ y. y.id == id) w.users)) [
  | inr e ↦ ground arith
  | inl e ↦
      let (x, p, q) =
        find-update_where_hit (λ y. y.id == id) (λ y. record y { status = status }) (λ y k. k)
          w.users e in
      let rows : w'.users
          ≡ update_where (λ y. y.id == id) (λ y. record y { status = status }) w.users =
        ground arith in
      (x, rw rows q)
]

module _ (d : Deps) (actor : User) (id : Text) where
  -- When a user is disabled and no statement fails, the row of the user is disabled and the user is
  -- left in no organization and in no group.
  pub disable_user-stripped :
      (w w' : World) (status : ℕ) (s : UserStatus)
      → ((n : ℕ) → d.fails n ≡ false)
      → disable_user d actor id w ≡ (json status s, w')
      → (actor.is_admin ≡ true)
        × ((x : User) × (find (λ u. u.id == id) w'.users
              ≡ some (record x { status = UserStatus.disabled })))
        × (count (λ m. m.user_id == id) w'.memberships ≡ 0)
        × (count (λ m. m.user_id == id) w'.group_memberships ≡ 0)
  unfolding disable_user
  disable_user-stripped w w' status s up h = elim (Bool-cases actor.is_admin) [
    | inr e ↦ absurd (problem-ne_json (rw e at h))
    | inl e ↦
        let ready = mirror_active d actor id false w in
        elim (Result-cases (set_user_status d id UserStatus.disabled ready)) [
          | inr (f, w1, q) ↦ ground arith
          | inl (u, w1, q) ↦
              let left = (remove_all_group_memberships d id (remove_all_memberships d id w1).1).1 in
              let kept = audit-world d (disabled_event actor id) left in
              let after : audit d (disabled_event actor id) left ≡ w' = ground arith in
              let (none_left, no_group, same) = stripped d id w1 up in
              let (x, found) = set_user_status-rows d id UserStatus.disabled ready w1 u q in
              rw (← after)
                (e, (x, rw (kept.0, same) found), rw kept.1 none_left, rw kept.2 no_group)
        ]
  ]
