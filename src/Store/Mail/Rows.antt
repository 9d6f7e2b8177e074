-- ===== src/Store/Mail/Rows.antt =====
-- The rows of internal/store/mail.go: what its inserts and updates do to the tables.
use selfu.Base.{
  Bool, true, false, ◌&&◌, ◌||◌, Option, none, some, List, ◌∷◌, Text, ◌==◌, if◌then◌else◌, any,
}
use selfu.Domain.Statuses.{MailIdentityStatus, CredentialStatus}
use selfu.Store.State.{World, MailDomain, MailIdentity, MailCredential, MailAlias}
use selfu.Store.Exec.{conflict, failed, got, fails, Act}
use selfu.Store.Exec.Tables.{update_where, exists}

unfoldable pub set_mail_domains : List MailDomain → World → World
set_mail_domains rows w = record w { mail_domains = rows }

unfoldable pub set_mail_identities : List MailIdentity → World → World
set_mail_identities rows w = record w { mail_identities = rows }

unfoldable pub set_mail_credentials : List MailCredential → World → World
set_mail_credentials rows w = record w { mail_credentials = rows }

unfoldable pub set_mail_aliases : List MailAlias → World → World
set_mail_aliases rows w = record w { mail_aliases = rows }

-- `mail_identity_addr_key` and `mail_identity_domain_local_key`
unfoldable pub same_mailbox : MailIdentity → MailIdentity → Bool
same_mailbox m n =
    n.address == m.address || (n.domain_id == m.domain_id && n.local_part == m.local_part)

-- `user_id` may be null.
unfoldable pub user_exists_or_null : Option Text → World → Bool
user_exists_or_null none w = true
user_exists_or_null (some user) w = exists (λ u. u.id == user) w.users

-- `insertMailIdentitySQL`: the status column takes its default, "requested".
unfoldable pub insert_mail_identity : MailIdentity → Act MailIdentity
unfolding set_mail_identities same_mailbox user_exists_or_null
insert_mail_identity m w =
    if exists (same_mailbox m) w.mail_identities
    then (fails conflict, w)
    else if exists (λ o. o.id == m.organization_id) w.organizations
        && (exists (λ x. x.id == m.domain_id) w.domains && user_exists_or_null m.user_id w)
    then (got row, set_mail_identities (row ∷ w.mail_identities) w)
    else (fails failed, w)
  where
    row : MailIdentity
    row = record m { status = MailIdentityStatus.requested }

unfoldable pub insert_mail_credential : MailCredential → Act MailCredential
unfolding set_mail_credentials
insert_mail_credential c w =
    if exists (λ m. m.id == c.mail_identity_id) w.mail_identities
    then (got row, set_mail_credentials (row ∷ w.mail_credentials) w)
    else (fails failed, w)
  where
    row : MailCredential
    row = record c { status = CredentialStatus.active }

-- `group_id` may be null.
unfoldable pub group_exists_or_null : Option Text → World → Bool
group_exists_or_null none w = true
group_exists_or_null (some group) w = exists (λ g. g.id == group) w.groups

-- `insertMailAliasSQL`
unfoldable pub insert_mail_alias : MailAlias → Act MailAlias
unfolding set_mail_aliases group_exists_or_null
insert_mail_alias a w =
    if exists
      (λ b. b.address == a.address || (b.domain_id == a.domain_id && b.local_part == a.local_part))
      w.mail_aliases
    then (fails conflict, w)
    else if exists (λ o. o.id == a.organization_id) w.organizations
        && (exists (λ x. x.id == a.domain_id) w.domains && group_exists_or_null a.group_id w)
    then (got row, set_mail_aliases (row ∷ w.mail_aliases) w)
    else (fails failed, w)
  where
    row : MailAlias
    row = record a { active = true }

abbrev pub is_live : CredentialStatus → Bool
is_live CredentialStatus.active = true
is_live CredentialStatus.revoked = false

unfoldable pub revoke_for : Text → List MailCredential → List MailCredential
revoke_for identity_id rows =
    update_where (λ c. c.mail_identity_id == identity_id && is_live c.status)
      (λ c. record c { status = CredentialStatus.revoked }) rows

-- `user_id = ANY(users)`
unfoldable pub is_of_users : List Text → Option Text → Bool
is_of_users users none = false
is_of_users users (some user) = any (λ u. u == user) users
