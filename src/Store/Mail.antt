-- ===== src/Store/Mail.antt =====
-- Mail domains, identities, credentials, aliases and policies: internal/store/mail.go.
mod Rows
unfoldable pub use Rows.*
use selfu.Base.{
  Bool, true, false, ◌&&◌, ◌||◌, Option, none, some, List, [], ◌∷◌, Text, ◌==◌, if◌then◌else◌,
  is_empty, any,
}
use selfu.Domain.Statuses.{
  MailDomainStatus, MailIdentityStatus, CredentialStatus, is_active_identity,
}
use selfu.Store.State.{
  World, MailDomain, MailIdentity, MailCredential, MailSubmissionPolicy, MailAlias,
}
use selfu.Store.Exec.{
  not_found, conflict, foreign_destination, failed, got, fails, Deps, Act, call, draw, found, on,
}
use selfu.Store.Exec.Tables.{find, select, update_where, delete_where, exists, order_by}

module _ (d : Deps) where
  unfoldable pub create_mail_domain : Text → Act MailDomain
  unfolding set_mail_domains
  create_mail_domain domain_id w = let drawn = draw d w in call d (insert drawn.0) drawn.1
    where
      row : Text → MailDomain
      row id = record {
        id = id;
        domain_id = domain_id;
        status = MailDomainStatus.provisioning;
        dkim_selector = [];
        dkim_record = [];
      }

      insert : Text → Act MailDomain
      insert id w =
          if exists (λ m. m.domain_id == domain_id) w.mail_domains
          then (fails conflict, w)
          else if exists (λ x. x.id == domain_id) w.domains
          then (got (row id), set_mail_domains (row id ∷ w.mail_domains) w)
          else (fails failed, w)

  unfoldable pub get_mail_domain_by_domain_id : Text → Act MailDomain
  get_mail_domain_by_domain_id domain_id =
      call d (λ w. (found (find (λ m. m.domain_id == domain_id) w.mail_domains), w))

  unfoldable pub set_mail_domain_status : Text → MailDomainStatus → Act (Unit {0})
  unfolding set_mail_domains
  set_mail_domain_status id status = call d (λ w. (
    got tt,
    set_mail_domains
        (update_where (λ m. m.id == id) (λ m. record m { status = status }) w.mail_domains) w,
  ))

  unfoldable pub set_mail_domain_dkim : Text → Text → Text → Act (Unit {0})
  unfolding set_mail_domains
  set_mail_domain_dkim id selector dns = call d (λ w. (
    got tt,
    set_mail_domains
        (update_where (λ m. m.id == id)
          (λ m. record m { dkim_selector = selector; dkim_record = dns }) w.mail_domains)
        w,
  ))

  unfoldable pub create_mail_identity : MailIdentity → Act MailIdentity
  unfolding insert_mail_identity
  create_mail_identity m w =
      let drawn = draw d w in
      if is_empty m.id
      then call d (insert_mail_identity (record m { id = drawn.0 })) drawn.1
      else call d (insert_mail_identity m) w

  unfoldable pub get_mail_identity : Text → Act MailIdentity
  get_mail_identity id = call d (λ w. (found (find (λ m. m.id == id) w.mail_identities), w))

  unfoldable pub get_mail_identity_by_address : Text → Act MailIdentity
  get_mail_identity_by_address address =
      call d (λ w. (found (find (λ m. m.address == address) w.mail_identities), w))

  unfoldable pub set_mail_identity_status : Text → MailIdentityStatus → Act (Unit {0})
  unfolding set_mail_identities
  set_mail_identity_status id status = call d (λ w. (
    got tt,
    set_mail_identities
        (update_where (λ m. m.id == id) (λ m. record m { status = status }) w.mail_identities) w,
  ))

  unfoldable pub validate_alias_destinations : Text → List Text → Act (Unit {0})
  unfolding get_mail_identity_by_address
  validate_alias_destinations org [] w = (got tt, w)
  validate_alias_destinations org (dest ∷ rest) w =
      on (get_mail_identity_by_address dest w)
        (λ m w.
          let others = validate_alias_destinations org rest w in
          if m.organization_id == org then others else (fails foreign_destination, w))
        (λ e w. (fails foreign_destination, w))

  unfoldable pub create_mail_credential : MailCredential → Act MailCredential
  unfolding insert_mail_credential
  create_mail_credential c w =
      let drawn = draw d w in
      if is_empty c.id
      then call d (insert_mail_credential (record c { id = drawn.0 })) drawn.1
      else call d (insert_mail_credential c) w

  unfoldable pub revoke_credentials_by_identity : Text → Act (Unit {0})
  unfolding set_mail_credentials revoke_for
  revoke_credentials_by_identity identity_id =
      call d (λ w. (got tt, set_mail_credentials (revoke_for identity_id w.mail_credentials) w))

  unfoldable pub create_mail_alias : MailAlias → Act MailAlias
  unfolding insert_mail_alias
  create_mail_alias a w =
      let drawn = draw d w in
      if is_empty a.id
      then call d (insert_mail_alias (record a { id = drawn.0 })) drawn.1
      else call d (insert_mail_alias a) w

  unfoldable pub get_mail_alias_by_address : Text → Act MailAlias
  get_mail_alias_by_address address =
      call d (λ w. (found (find (λ a. a.address == address) w.mail_aliases), w))

  unfoldable pub update_mail_alias_destinations : Text → List Text → Act (Unit {0})
  unfolding set_mail_aliases
  update_mail_alias_destinations id destinations = call d (λ w. (
    got tt,
    set_mail_aliases
        (update_where (λ a. a.id == id) (λ a. record a { destinations = destinations })
          w.mail_aliases)
        w,
  ))

  unfoldable pub delete_mail_alias : Text → Act (Unit {0})
  unfolding set_mail_aliases
  delete_mail_alias id = call d (λ w.
      if exists (λ a. a.id == id) w.mail_aliases
      then (got tt, set_mail_aliases (delete_where (λ a. a.id == id) w.mail_aliases) w)
      else (fails not_found, w))

  unfoldable pub create_mail_submission_policy : MailSubmissionPolicy → Act (Unit {0})
  create_mail_submission_policy p w =
      let drawn = draw d w in
      call d
        (λ w.
          if exists (λ m. m.id == p.mail_identity_id) w.mail_identities
            && exists (λ c. c.id == p.credential_id) w.mail_credentials
          then (got tt, record w { mail_policies = p ∷ w.mail_policies })
          else (fails failed, w))
        drawn.1

  unfoldable pub list_mail_identities_by_domain : Text → Act (List MailIdentity)
  list_mail_identities_by_domain domain_id = call d (λ w. (
    got (order_by (λ m. m.address) (select (λ m. m.domain_id == domain_id) w.mail_identities)),
    w,
  ))

  unfoldable pub list_mail_aliases_by_domain : Text → Act (List MailAlias)
  list_mail_aliases_by_domain domain_id = call d (λ w.
      (got (order_by (λ a. a.address) (select (λ a. a.domain_id == domain_id) w.mail_aliases)), w))

  -- The active identities of the given users; no statement is sent for no users.
  unfoldable pub list_mail_identities_by_users : Text → List Text → Act (List MailIdentity)
  unfolding is_of_users
  list_mail_identities_by_users org [] w = (got [], w)
  list_mail_identities_by_users org (user ∷ users) w =
      call d
        (λ w. (
          got (
              order_by (λ m. m.address)
                (select
                  (λ m.
                    m.organization_id == org
                    && (is_of_users (user ∷ users) m.user_id && is_active_identity m.status))
                  w.mail_identities)),
          w,
        ))
        w
