-- ===== src/Provision.antt =====
-- internal/provision/mail.go: mailboxes and their credentials at the mail server. `random` gives the
-- texts of `newSMTPSecret`, which are long enough whenever reading randomness succeeds.
pub mod Secrets
use selfu.Base.{
  ℕ, Bool, true, false, not, ◌&&◌, Option, none, some, List, [], ◌∷◌, Text, if◌then◌else◌, is_empty,
  cut,
}
use selfu.Domain.Statuses.{MailIdentityStatus, CredentialStatus}
use selfu.Store.State.{World, Effect, MailIdentity, MailCredential, MailSubmissionPolicy}
use selfu.Store.Exec.{StoreError, failed, Result, got, fails, Deps, Act, call, draw, on}
use selfu.Store.Mail.{
  create_mail_identity, create_mail_credential, create_mail_submission_policy,
  set_mail_identity_status, revoke_credentials_by_identity,
}

unfoldable pub mta_effect : Effect → World → World
mta_effect e w = record w { effects = e ∷ w.effects }

-- `strings.SplitN(addr, "@", 2)[0]`, which is also `localPartOf` of internal/httpapi
unfoldable pub local_part_of : Text → Text
local_part_of addr = go (cut b'@' addr)
  where
    go : Option (Text × Text) → Text
    go none = addr
    go (some (local, rest)) = local

unfoldable pub with_local_part : MailIdentity → MailIdentity
unfolding local_part_of
with_local_part m =
    if is_empty m.local_part && not (is_empty m.address)
    then record m { local_part = local_part_of m.address }
    else m

-- A credential as callers give it, with the fingerprint of its secret
unfoldable pub credential_for : (Text → Text) → Text → Text → MailCredential
credential_for sha256_hex identity_id secret = record {
  id = [];
  mail_identity_id = identity_id;
  secret_fingerprint = sha256_hex secret;
  status = CredentialStatus.active;
}

-- What `Provisioner` returns: the identity, the credential's id, and the secret
pub record Provisioned : Type 0 where
  pub identity : MailIdentity
  pub credential_id : Text
  pub secret : Text

pub record Rotated : Type 0 where
  pub credential_id : Text
  pub secret : Text

module _ (d : Deps) where
  unfoldable pub add_user : Text → Text → Act (Unit {0})
  unfolding mta_effect
  add_user address secret = call d (λ w. (got tt, mta_effect (Effect.add_user address secret) w))

  unfoldable pub ensure_sender_policy : Text → List Text → Act (Unit {0})
  unfolding mta_effect
  ensure_sender_policy address allowed =
      call d (λ w. (got tt, mta_effect (Effect.ensure_sender_policy address allowed) w))

  unfoldable pub change_password : Text → Text → Act (Unit {0})
  unfolding mta_effect
  change_password address secret =
      call d (λ w. (got tt, mta_effect (Effect.change_password address secret) w))

  -- The steps after the mail server has the user: none of them can fail the call.
  unfoldable pub activate : MailIdentity → Text → Text → Act Provisioned
  activate m credential_id secret w =
      let policed = (ensure_sender_policy m.address (m.address ∷ []) w).1 in
      let allowed =
        (create_mail_submission_policy d
          (record {
            mail_identity_id = m.id;
            credential_id = credential_id;
            allowed_from_addresses = m.address ∷ [];
            application_instance_id = none;
          })
          policed).1 in
      let marked = (set_mail_identity_status d m.id MailIdentityStatus.active allowed).1 in
      (
        got (record {
          identity = record m { status = MailIdentityStatus.active };
          credential_id = credential_id;
          secret = secret;
        }),
        marked,
      )

  -- `Provisioner`
  unfoldable pub provisioner : MailIdentity → Act Provisioned
  unfolding add_user activate with_local_part credential_for
  provisioner m w = with_secret (draw d w)
    where
      with_credential : MailIdentity → Text → MailCredential → World → Result Provisioned × World
      with_credential m secret c w =
          on (add_user m.address secret w) (λ u w. activate m c.id secret w)
            (λ e w.
              (fails failed, (set_mail_identity_status d m.id MailIdentityStatus.deleted w).1))

      with_identity : Text → MailIdentity → World → Result Provisioned × World
      with_identity secret m w =
          on (create_mail_credential d (credential_for d.sha256_hex m.id secret) w)
            (λ c w. with_credential m secret c w) (λ e w. (fails e, w))

      with_secret : Text × World → Result Provisioned × World
      with_secret (secret, w) =
          on (create_mail_identity d (with_local_part m) w) (λ m w. with_identity secret m w)
            (λ e w. (fails e, w))

  -- `Rotate`
  unfoldable pub rotate : MailIdentity → Act Rotated
  unfolding change_password credential_for
  rotate m w = with_secret (draw d w)
    where
      renew : Text → World → Result Rotated × World
      renew secret w =
          on (create_mail_credential d (credential_for d.sha256_hex m.id secret) w)
            (λ c w. (got (record { credential_id = c.id; secret = secret }), w))
            (λ e w. (fails e, w))

      with_secret : Text × World → Result Rotated × World
      with_secret (secret, w) =
          on (change_password m.chasquid_username secret w)
            (λ u w.
              on (revoke_credentials_by_identity d m.id w) (λ u w. renew secret w)
                (λ e w. (fails e, w)))
            (λ e w. (fails failed, w))
