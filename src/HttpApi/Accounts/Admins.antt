-- ===== src/HttpApi/Accounts/Admins.antt =====
-- Platform admins: what `setUserAdmin` and `disableUser` promise.
use selfu.Base.{
  ℕ, ◌≤◌, ◌≡◌, inl, inr, refl, Bool, true, false, ◌&&◌, Option, some, arith, Bool-cases, Text, ◌==◌,
  ==_iff,
}
use selfu.Domain.Statuses.{is_active_user}
use selfu.Domain.Entities.{User}
use selfu.Store.State.{World}
use selfu.Store.Exec.{Deps}
use selfu.Store.Exec.Tables.{find, update_where, count}
use selfu.Store.Exec.Tables.Rows.{find-update_where_other, count-update_where}
use selfu.Store.Users.{set_users, set_user_admin, admin_count}
use selfu.HttpApi.{problem, json, audit}
use selfu.HttpApi.Accounts.{toggle_admin}

abbrev pub is_active_admin : User → Bool
is_active_admin u = u.is_admin && is_active_user u.status

toggle_admin-demoted :
    (d : Deps) (actor : User) (id : Text) (w w' : World) (status : ℕ) (b : Bool)
    → toggle_admin d actor id (some false) w ≡ (json status b, w')
    → (actor.is_admin ≡ true)
      × ((id == actor.id) ≡ false)
      × (2 ≤ count is_active_admin w.users)
      × (w'.users ≡ update_where (λ u. u.id == id) (λ u. record u { is_admin = false }) w.users)
unfolding toggle_admin admin_count set_user_admin set_users audit
toggle_admin-demoted d actor id w w' status b h = elim (Bool-cases (actor.is_admin)) [
  | inr e ↦ ground arith
  | inl e ↦ (e, ground arith, ground arith, ground arith)
]

module _ (d : Deps) (actor : User) (id : Text) where
  -- A demotion that succeeds leaves at least one active platform admin, and the row of the admin who
  -- demands it as it is, provided that at most one row has the id of the demoted user.
  pub toggle_admin-last_admin :
      (w w' : World) (status : ℕ) (b : Bool)
      → count (λ u. u.id == id) w.users ≤ 1
      → toggle_admin d actor id (some false) w ≡ (json status b, w')
      → (1 ≤ count is_active_admin w'.users)
        × (find (λ u. u.id == actor.id) w'.users ≡ find (λ u. u.id == actor.id) w.users)
  toggle_admin-last_admin w w' status b one h =
      let (admin, other, two, rows) = toggle_admin-demoted d actor id w w' status b h in
      let taken =
        count-update_where (λ u. u.id == id) is_active_admin (λ u. record u { is_admin = false })
          w.users in
      rw rows (
        ground arith,
        find-update_where_other (λ u. u.id == id) (λ u. u.id == actor.id)
            (λ u. record u { is_admin = false })
            (λ u e.
              let ne : (u.id == actor.id) ≡ false = rw ((==_iff u.id id).0 e) other in (ne, ne))
            w.users,
      )

  -- Whoever is no platform admin is refused with 403, and changes nothing, whatever the request is.
  pub toggle_admin-forbidden :
      (body : Option Bool) (w : World)
      → actor.is_admin ≡ false
      → toggle_admin d actor id body w ≡ (problem 403 "forbidden", w)
  unfolding toggle_admin
  toggle_admin-forbidden body w e = rw e refl
