-- ===== src/Store/Groups.antt =====
-- Groups and their members: internal/store/group.go.
use selfu.Base.{
  Bool, false, ◌&&◌, Option, none, some, List, ◌∷◌, Text, ◌==◌, if◌then◌else◌, is_empty,
}
use selfu.Domain.Entities.{Group, User}
use selfu.Store.State.{World, GroupMembership}
use selfu.Store.Exec.{not_found, conflict, failed, got, fails, Deps, Act, call, draw, found}
use selfu.Store.Exec.Tables.{find, select, update_where, delete_where, exists, order_by}

unfoldable pub set_group_memberships : List GroupMembership → World → World
set_group_memberships rows w = record w { group_memberships = rows }

unfoldable pub is_in_group : Text → Text → GroupMembership → Bool
is_in_group group user m = m.group_id == group && m.user_id == user

-- `insertGroupSQL`
unfoldable pub insert_group : Group → Act Group
insert_group g w =
    if exists (λ h. h.organization_id == g.organization_id && h.slug == g.slug) w.groups
    then (fails conflict, w)
    else if exists (λ o. o.id == g.organization_id) w.organizations
    then (got g, record w { groups = g ∷ w.groups })
    else (fails failed, w)

-- `DELETE FROM groups` with its cascade and its `ON DELETE SET NULL`
unfoldable pub without_group : Text → World → World
without_group id w = record w {
  groups = delete_where (λ g. g.id == id) w.groups;
  group_memberships = delete_where (λ m. m.group_id == id) w.group_memberships;
  mail_aliases =
      update_where (λ a. of_group a.group_id) (λ a. record a { group_id = none }) w.mail_aliases;
}
  where
    of_group : Option Text → Bool
    of_group none = false
    of_group (some group) = group == id

module _ (d : Deps) where
  unfoldable pub create_group : Group → Act Group
  unfolding insert_group
  create_group g w =
      let drawn = draw d w in
      if is_empty g.id
      then call d (insert_group (record g { id = drawn.0 })) drawn.1
      else call d (insert_group g) w

  unfoldable pub get_group_by_id : Text → Act Group
  get_group_by_id id = call d (λ w. (found (find (λ g. g.id == id) w.groups), w))

  unfoldable pub list_groups_by_org : Text → Act (List Group)
  list_groups_by_org org =
      call d
        (λ w. (got (order_by (λ g. g.name) (select (λ g. g.organization_id == org) w.groups)), w))

  unfoldable pub delete_group : Text → Act (Unit {0})
  unfolding without_group
  delete_group id = call d (λ w.
      if exists (λ g. g.id == id) w.groups
      then (got tt, without_group id w)
      else (fails not_found, w))

  -- A member who is there already is no error.
  unfoldable pub add_group_member : Text → Text → Act (Unit {0})
  unfolding set_group_memberships is_in_group
  add_group_member group user = call d (λ w.
      if exists (is_in_group group user) w.group_memberships
      then (got tt, w)
      else if exists (λ g. g.id == group) w.groups && exists (λ u. u.id == user) w.users
      then (
        got tt,
        set_group_memberships (record { group_id = group; user_id = user } ∷ w.group_memberships) w,
      )
      else (fails failed, w))

  unfoldable pub remove_group_member : Text → Text → Act (Unit {0})
  unfolding set_group_memberships is_in_group
  remove_group_member group user = call d (λ w.
      (got tt, set_group_memberships (delete_where (is_in_group group user) w.group_memberships) w))

  unfoldable pub remove_all_group_memberships : Text → Act (Unit {0})
  unfolding set_group_memberships
  remove_all_group_memberships user = call d (λ w.
      (got tt, set_group_memberships (delete_where (λ m. m.user_id == user) w.group_memberships) w))

  -- The members of a group, in the order of their addresses
  unfoldable pub list_group_members : Text → Act (List User)
  unfolding is_in_group
  list_group_members group = call d (λ w. (
    got (
        order_by (λ u. u.email)
          (select (λ u. exists (is_in_group group u.id) w.group_memberships) w.users)),
    w,
  ))
