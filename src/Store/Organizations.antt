-- ===== src/Store/Organizations.antt =====
-- Organizations and memberships: internal/store/org.go. Deleting an organization removes the rows of
-- every table that refers to it, as the foreign keys of internal/store/migrations say.
pub mod Grants
use selfu.Base.{
  Bool, true, false, not, ◌&&◌, ◌||◌, Option, none, some, List, [], ◌∷◌, Text, ◌==◌, if◌then◌else◌,
  is_empty, map,
}
use mathlib.Core.Option
use selfu.Domain.Roles.{OrgRole, valid, default_role}
use selfu.Domain.Entities.{Organization}
use selfu.Store.State.{World, Membership, MailAlias}
use selfu.Store.Exec.{
  StoreError, not_found, conflict, failed, Result, got, fails, Deps, Act, call, draw, found, on,
}
use selfu.Store.Exec.Tables.{find, select, update_where, delete_where, exists}

unfoldable pub set_memberships : List Membership → World → World
set_memberships rows w = record w { memberships = rows }

unfoldable pub is_pair : Text → Text → Membership → Bool
is_pair org user m = m.organization_id == org && m.user_id == user

-- Both foreign keys of a membership or an invite hold.
unfoldable pub pair_exists : Text → Text → World → Bool
pair_exists org user w =
    exists (λ o. o.id == org) w.organizations && exists (λ u. u.id == user) w.users

-- `upsertMembershipSQL`
unfoldable pub upsert_membership : Text → Text → Text → OrgRole → Act Membership
unfolding set_memberships is_pair pair_exists
upsert_membership id org user role w =
    if pair_exists org user w
    then if exists (is_pair org user) w.memberships
      then (
        got row,
        set_memberships
            (update_where (is_pair org user) (λ m. record m { role = role }) w.memberships) w,
      )
      else (got row, set_memberships (row ∷ w.memberships) w)
    else (fails failed, w)
  where
    row : Membership
    row = record { id = id; organization_id = org; user_id = user; role = role }

-- `insertOrgSQL`
unfoldable pub insert_organization : Organization → Act Organization
insert_organization o w =
    if exists (λ p. p.name == o.name || p.slug == o.slug) w.organizations
    then (fails conflict, w)
    else (got o, record w { organizations = o ∷ w.organizations })

-- The domain, or the mail identity, belongs to the organization.
unfoldable pub owns_domain : Text → World → Text → Bool
owns_domain id w domain_id = exists (λ x. x.organization_id == id && x.id == domain_id) w.domains

unfoldable pub owns_identity : Text → World → Text → Bool
unfolding owns_domain
owns_identity id w identity_id =
    exists (λ m. m.id == identity_id && (m.organization_id == id || owns_domain id w m.domain_id))
      w.mail_identities

-- `ON DELETE SET NULL` of `mail_aliases.group_id`
unfoldable pub unbind_group : (Text → Bool) → MailAlias → MailAlias
unbind_group gone a = go a.group_id
  where
    go : Option Text → MailAlias
    go none = a
    go (some group) = if gone group then record a { group_id = none } else a

-- `DELETE FROM organizations` with its cascades
unfoldable pub without_organization : Text → World → World
unfolding owns_domain owns_identity unbind_group
without_organization id w = record w {
  organizations = delete_where (λ o. o.id == id) w.organizations;
  memberships = delete_where (λ m. m.organization_id == id) w.memberships;
  groups = delete_where (λ g. g.organization_id == id) w.groups;
  group_memberships =
      delete_where (λ m. exists (λ g. g.organization_id == id && g.id == m.group_id) w.groups)
        w.group_memberships;
  invites = delete_where (λ i. i.organization_id == id) w.invites;
  domains = delete_where (λ x. x.organization_id == id) w.domains;
  hostnames = delete_where (λ n. owns_domain id w n.domain_id) w.hostnames;
  verifications = delete_where (λ v. owns_domain id w v.domain_id) w.verifications;
  mail_domains = delete_where (λ m. owns_domain id w m.domain_id) w.mail_domains;
  mail_identities =
      delete_where (λ m. m.organization_id == id || owns_domain id w m.domain_id) w.mail_identities;
  mail_credentials = delete_where (λ c. owns_identity id w c.mail_identity_id) w.mail_credentials;
  mail_policies = delete_where (λ p. owns_identity id w p.mail_identity_id) w.mail_policies;
  mail_aliases =
      map (unbind_group (λ group. exists (λ g. g.organization_id == id && g.id == group) w.groups))
        (delete_where (λ a. a.organization_id == id || owns_domain id w a.domain_id)
          w.mail_aliases);
  installation =
      if owns_domain id w w.installation.primary_domain_id
      then record w.installation { primary_domain_id = [] }
      else w.installation;
}

module _ (d : Deps) where
  unfoldable pub create_organization : Organization → Act Organization
  unfolding insert_organization
  create_organization o w =
      let drawn = draw d w in
      if is_empty o.id
      then call d (insert_organization (record o { id = drawn.0 })) drawn.1
      else call d (insert_organization o) w

  unfoldable pub get_organization_by_id : Text → Act Organization
  get_organization_by_id id = call d (λ w. (found (find (λ o. o.id == id) w.organizations), w))

  unfoldable pub delete_organization : Text → Act (Unit {0})
  unfolding without_organization
  delete_organization id = call d (λ w.
      if exists (λ o. o.id == id) w.organizations
      then (got tt, without_organization id w)
      else (fails not_found, w))

  unfoldable pub set_membership : Text → Text → OrgRole → Act Membership
  unfolding upsert_membership
  set_membership org user role w =
      let drawn = draw d w in
      if valid (default_role role)
      then call d (upsert_membership drawn.0 org user (default_role role)) drawn.1
      else (fails failed, w)

  unfoldable pub get_membership_role : Text → Text → Act OrgRole
  unfolding is_pair
  get_membership_role org user =
      call d (λ w. (found (Option.map (λ m. m.role) (find (is_pair org user) w.memberships)), w))

  unfoldable pub remove_membership : Text → Text → Act (Unit {0})
  unfolding set_memberships is_pair
  remove_membership org user =
      call d (λ w. (got tt, set_memberships (delete_where (is_pair org user) w.memberships) w))

  unfoldable pub remove_all_memberships : Text → Act (Unit {0})
  unfolding set_memberships
  remove_all_memberships user =
      call d
        (λ w. (got tt, set_memberships (delete_where (λ m. m.user_id == user) w.memberships) w))
