-- ===== src/Tests/Records.antt =====
-- The theorems on roles, secrets and first logins, at the small installation.
use selfu.Base.{
  ℕ, suc, ◌+◌, ◌≤◌, ◌<◌, ◌≡◌, ◌⊎◌, inl, inr, refl, Bool, true, false, none, some, List, [], ◌∷◌,
  ◌++◌, Text, text, ◌==◌, String, ok, arith, length,
}
use selfu.Domain.Roles.{OrgRole, default_role, valid}
use selfu.Domain.Entities.{User, DomainRow, new_user}
use selfu.Store.State.{World}
use selfu.Store.Exec.{Result, got, fails, StoreError, Deps, tick}
use selfu.Store.Exec.Tables.{find, count}
use selfu.Store.Users.{upsert_from_oidc}
use selfu.Store.Users.Bootstrap.{upsert_from_oidc-first, upsert_from_oidc-later}
use selfu.Store.Organizations.{set_membership}
use selfu.Store.Organizations.Grants.{role_of, set_membership-get}
use selfu.Provision.{Rotated, rotate}
use selfu.Provision.Secrets.{is_live_for, rotate-one_live}
use selfu.Tests.Fixtures.{steady, ada, mailbox, start}

abbrev rotated : Rotated
rotated = record { credential_id = 1 ∷ []; secret = 0 ∷ [] }

abbrev renewed : World
renewed = (rotate steady mailbox start).1

rotates : rotate steady mailbox start ≡ (got rotated, renewed)
unfolding rotate selfu.Store.Mail.revoke_credentials_by_identity
    selfu.Store.Mail.create_mail_credential selfu.Store.Exec.Tables.exists ◌==◌
rotates = refl

rotate-one_live_example : count (is_live_for (text "e1")) renewed.mail_credentials ≡ 1
rotate-one_live_example = (rotate-one_live steady mailbox start renewed rotated rotates).0

abbrev joined : World
joined = (set_membership steady (text "o1") (text "bob") (OrgRole.other []) start).1

joins : set_membership steady (text "o1") (text "bob") (OrgRole.other []) start ≡ (
  got (record {
    id = 0 ∷ [];
    organization_id = text "o1";
    user_id = text "bob";
    role = OrgRole.member;
  }),
  joined,
)
unfolding set_membership valid default_role selfu.Store.Exec.Tables.exists ◌==◌
joins = refl

set_membership-get_example : role_of joined (text "o1") (text "bob") ≡ some OrgRole.member
unfolding default_role
set_membership-get_example =
    (set_membership-get steady (text "o1") (text "bob") (OrgRole.other []) start joined
      (record {
        id = 0 ∷ [];
        organization_id = text "o1";
        user_id = text "bob";
        role = OrgRole.member;
      })
      joins).1

abbrev newcomer : User
newcomer = record ada {
  id = [];
  email = text "new@x.org";
  auth_identity_id = text "9";
  is_admin = false;
}

abbrev empty : World
empty = record start { users = [] }

is_new : new_user (text "new@x.org") [] (text "https://id.test/") (text "9") ≡ ok newcomer
unfolding new_user selfu.Base.to_lower selfu.Base.trim_space selfu.Domain.Entities.looks_like_email
    selfu.Domain.Entities.positions_ok selfu.Base.index_byte selfu.Base.last_index_byte
    selfu.Domain.Entities.domain_part_ok selfu.Base.contains_any selfu.Base.contains
is_new = refl

upsert_from_oidc-first_example :
    (upsert_from_oidc steady (text "https://id.test/") (text "9") (text "new@x.org") [] empty).0
    ≡ got (record newcomer { id = 0 ∷ []; is_admin = true }, true, true)
unfolding selfu.Store.Users.identity_taken selfu.Store.Exec.Tables.exists find
upsert_from_oidc-first_example =
    (upsert_from_oidc-first steady (text "https://id.test/") (text "9") (text "new@x.org") []
      newcomer empty is_new refl refl refl (λ n. refl)).0

upsert_from_oidc-later_example :
    (upsert_from_oidc steady (text "https://id.test/") (text "9") (text "new@x.org") [] start).0
    ≡ fails StoreError.failed
unfolding selfu.Store.Users.identity_taken selfu.Store.Exec.Tables.exists ◌==◌ find
upsert_from_oidc-later_example =
    (upsert_from_oidc-later steady (text "https://id.test/") (text "9") (text "new@x.org") []
      newcomer start is_new refl refl refl (λ n. refl)).0
