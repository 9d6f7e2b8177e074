-- ===== src/Store/Users/Bootstrap.antt =====
-- First logins: what `UpsertFromOIDC` does for a new address.
use selfu.Base.{
  ℕ, ◌≡◌, refl, Bool, true, false, not, ◌&&◌, none, some, List, ◌∷◌, Text, ◌==◌, ==_refl, ok,
}
use selfu.Domain.Entities.{User, new_user}
use selfu.Store.State.{World}
use selfu.Store.Exec.{failed, got, fails, Deps, draw, tick}
use selfu.Store.Exec.Tables.{find, update_where, exists}
use selfu.Store.Users.{upsert_from_oidc, upsert_row, grant_admin_if_none, identity_taken, set_users}

-- Another row is an admin's.
abbrev pub other_admin : Text → List User → Bool
other_admin id rows = exists (λ u. not (u.id == id) && u.is_admin) rows

upsert_row-new :
    (user : User) (w : World)
    → identity_taken user w.users ≡ false
    → find (λ u. u.email == user.email) w.users ≡ none
    → upsert_row user w ≡ (got (user, true), set_users (user ∷ w.users) w)
unfolding upsert_row
upsert_row-new user w taken new = rw (taken, new) refl

other_admin-cons :
    (user : User) (rows : List User) → other_admin user.id (user ∷ rows) ≡ other_admin user.id rows
unfolding exists
other_admin-cons user rows = rw (==_refl user.id) refl

module _ (d : Deps) (provider subject email name : Text) (user : User) where
  -- The first login of an address when no user is an admin: the user is stored as an admin, and the
  -- reply says so.
  pub upsert_from_oidc-first :
      (w : World)
      → new_user email name provider subject ≡ ok user
      → identity_taken (record user { id = d.random w.draws }) w.users ≡ false
      → find (λ u. u.email == user.email) w.users ≡ none
      → other_admin (d.random w.draws) w.users ≡ false
      → ((n : ℕ) → d.fails n ≡ false)
      → ((upsert_from_oidc d provider subject email name w).0
          ≡ got (record user { id = d.random w.draws; is_admin = true }, true, true))
        × (find
              (λ u. u.id == d.random w.draws)
              (upsert_from_oidc d provider subject email name w).1.users
            ≡ some (record user { id = d.random w.draws; is_admin = true }))
  unfolding upsert_from_oidc grant_admin_if_none set_users
  upsert_from_oidc-first w made taken new none_admin up =
      let stored = record user { id = d.random w.draws } in
      let drawn = tick (draw d w).1 in
      rw
        (
          made,
          up,
          upsert_row-new stored drawn taken new,
          up,
          other_admin-cons stored w.users,
          none_admin,
        )
        (
          refl,
          unfold find update_where in
              rw (==_refl (d.random w.draws), ==_refl (d.random w.draws)) refl,
        )

  -- The first login of an address when another user is an admin: the call fails, although no
  -- statement does by itself, since the one that grants the role returns no row. The row of the user
  -- stays inserted.
  pub upsert_from_oidc-later :
      (w : World)
      → new_user email name provider subject ≡ ok user
      → identity_taken (record user { id = d.random w.draws }) w.users ≡ false
      → find (λ u. u.email == user.email) w.users ≡ none
      → other_admin (d.random w.draws) w.users ≡ true
      → ((n : ℕ) → d.fails n ≡ false)
      → ((upsert_from_oidc d provider subject email name w).0 ≡ fails failed)
        × ((upsert_from_oidc d provider subject email name w).1.users
            ≡ record user { id = d.random w.draws } ∷ w.users)
  unfolding upsert_from_oidc grant_admin_if_none set_users
  upsert_from_oidc-later w made taken new admin up =
      let stored = record user { id = d.random w.draws } in
      let drawn = tick (draw d w).1 in
      rw
        (
          made,
          up,
          upsert_row-new stored drawn taken new,
          up,
          other_admin-cons stored w.users,
          admin,
        )
        (refl, refl)
