-- ===== src/Store/Users.antt =====
-- The users table: internal/store/users.go and internal/store/users2.go.
pub mod Bootstrap
use selfu.Base.{
  ℕ, Bool, true, false, not, ◌&&◌, ◌||◌, Option, none, some, List, [], ◌∷◌, Text, ◌==◌,
  if◌then◌else◌, trim_space, to_lower, Checked, ok, err, leb,
}
use selfu.Domain.Statuses.{UserStatus, is_active_user}
use selfu.Domain.Entities.{User, new_user}
use selfu.Store.State.{World}
use selfu.Store.Exec.{
  StoreError, not_found, conflict, failed, Result, got, fails, Deps, Act, call, draw, found, on,
}
use selfu.Store.Exec.Tables.{find, update_where, exists, count}

unfoldable pub set_users : List User → World → World
set_users rows w = record w { users = rows }

-- The columns that the upsert overwrites when the address is taken.
unfoldable pub relink : User → User → User
relink new row = record row {
  auth_provider = new.auth_provider;
  auth_identity_id = new.auth_identity_id;
  display_name = new.display_name;
  status = UserStatus.active;
}

-- Another row holds the provider's subject: `users_identity_key`.
unfoldable pub identity_taken : User → List User → Bool
identity_taken new rows =
    exists
      (λ u.
        not (u.email == new.email)
        && (u.auth_provider == new.auth_provider && u.auth_identity_id == new.auth_identity_id))
      rows

-- `upsertUserSQL`: the stored row, and whether it was inserted.
unfoldable pub upsert_row : User → Act (User × Bool)
unfolding set_users relink identity_taken
upsert_row new w =
    if identity_taken new w.users
    then (fails failed, w)
    else go (find (λ u. u.email == new.email) w.users)
  where
    go : Option User → Result (User × Bool) × World
    go none = (got (new, true), set_users (new ∷ w.users) w)
    go (some row) = (
      got (relink new row, false),
      set_users (update_where (λ u. u.email == new.email) (relink new) w.users) w,
    )

-- `grantAdminIfNoneSQL`; the statement returns no row, and so an error, if another user is an admin.
unfoldable pub grant_admin_if_none : Text → Act Bool
unfolding set_users
grant_admin_if_none id w =
    if exists (λ u. not (u.id == id) && u.is_admin) w.users then (fails failed, w) else (
      got true,
      set_users (update_where (λ u. u.id == id) (λ u. record u { is_admin = true }) w.users) w,
    )

module _ (d : Deps) where
  -- The user, whether it was created, and whether it became an admin.
  unfoldable pub upsert_from_oidc : Text → Text → Text → Text → Act (User × Bool × Bool)
  unfolding upsert_row grant_admin_if_none
  upsert_from_oidc provider subject email display_name w =
      validated (new_user email display_name provider subject)
    where
      stored : User × Bool → World → Result (User × Bool × Bool) × World
      stored (user, false) w = (got (user, false, false), w)
      stored (user, true) w =
          on (call d (grant_admin_if_none user.id) w)
            (λ granted w. (got (record user { is_admin = granted }, true, granted), w))
            (λ e w. (fails e, w))

      validated : Checked User → Result (User × Bool × Bool) × World
      validated (err e) = (fails failed, w)
      validated (ok user) =
          let drawn = draw d w in
          on (call d (upsert_row (record user { id = drawn.0 })) drawn.1) stored
            (λ e w. (fails e, w))

  unfoldable pub get_by_id : Text → Act User
  get_by_id id = call d (λ w. (found (find (λ u. u.id == id) w.users), w))

  unfoldable pub admin_count : Act ℕ
  admin_count = call d (λ w. (got (count (λ u. u.is_admin && is_active_user u.status) w.users), w))

  -- The values of the inserted row.
  unfoldable pub fresh_user : Text → Text → Text → Text → Text → User
  fresh_user id email display_name provider identity_id = record {
    id = id;
    email = to_lower (trim_space email);
    display_name = trim_space display_name;
    status = UserStatus.active;
    is_admin = false;
    auth_provider = provider;
    auth_identity_id = identity_id;
  }

  -- `users_email_key` and `users_identity_key`
  unfoldable pub user_conflicts : User → List User → Bool
  user_conflicts new rows =
      exists
        (λ u.
          u.email == new.email
          || (u.auth_provider == new.auth_provider && u.auth_identity_id == new.auth_identity_id))
        rows

  unfoldable pub insert_user : User → Act User
  unfolding set_users user_conflicts
  insert_user new w =
      if user_conflicts new w.users
      then (fails conflict, w)
      else (got new, set_users (new ∷ w.users) w)

  unfoldable pub create_user : Text → Text → Text → Text → Act User
  unfolding insert_user fresh_user
  create_user email display_name provider identity_id w =
      let drawn = draw d w in
      call d (insert_user (fresh_user drawn.0 email display_name provider identity_id)) drawn.1

  unfoldable pub get_user_by_email : Text → Act User
  get_user_by_email email =
      call d (λ w. (found (find (λ u. u.email == to_lower (trim_space email)) w.users), w))

  unfoldable pub set_user_status : Text → UserStatus → Act (Unit {0})
  unfolding set_users
  set_user_status id status = call d (λ w.
      if exists (λ u. u.id == id) w.users
      then (
        got tt,
        set_users (update_where (λ u. u.id == id) (λ u. record u { status = status }) w.users) w,
      )
      else (fails not_found, w))

  unfoldable pub set_user_admin : Text → Bool → Act (Unit {0})
  unfolding set_users
  set_user_admin id admin = call d (λ w. (
    got tt,
    set_users (update_where (λ u. u.id == id) (λ u. record u { is_admin = admin }) w.users) w,
  ))
