-- ===== src/Provision/Secrets.antt =====
-- Rotation of secrets: what `Rotate` promises.
use selfu.Base.{◌≡◌, inl, inr, refl, Bool, true, ◌&&◌, List, ◌∷◌, arith, Text, ◌==◌, ==_refl, ◌∙◌}
use selfu.Domain.Statuses.{CredentialStatus}
use selfu.Store.State.{World, Effect, MailIdentity, MailCredential}
use selfu.Store.Exec.{got, Deps, draw, Result-cases}
use selfu.Store.Exec.Tables.{update_where, count}
use selfu.Store.Exec.Tables.Rows.{count-update_where_none}
use selfu.Store.Mail.{
  is_live, revoke_for, revoke_credentials_by_identity, create_mail_credential,
  insert_mail_credential, set_mail_credentials,
}
use selfu.Provision.{Rotated, credential_for, change_password, mta_effect, rotate}

-- A credential of the identity that is in force
abbrev pub is_live_for : Text → MailCredential → Bool
is_live_for identity_id c = c.mail_identity_id == identity_id && is_live c.status

-- No credential of the identity is left in force.
revoke_credentials-none :
    (d : Deps) (identity_id : Text) (w w' : World) (u : Unit {0})
    → revoke_credentials_by_identity d identity_id w ≡ (got u, w')
    → (count (is_live_for identity_id) w'.mail_credentials ≡ 0) × (w'.effects ≡ w.effects)
unfolding revoke_credentials_by_identity revoke_for set_mail_credentials
revoke_credentials-none d identity_id w w' u h =
    let rows : w'.mail_credentials
        ≡ update_where (is_live_for identity_id)
            (λ c. record c { status = CredentialStatus.revoked }) w.mail_credentials =
      ground arith in
    (
      rw rows (
          count-update_where_none (is_live_for identity_id) (is_live_for identity_id)
            (λ c. record c { status = CredentialStatus.revoked }) (λ c. ground arith)
            w.mail_credentials),
      ground arith,
    )

-- The credential that is inserted is in force, and is the only row that the table gains.
create_mail_credential-rows :
    (d : Deps) (identity_id secret : Text) (w w' : World) (c : MailCredential)
    → create_mail_credential d (credential_for d.sha256_hex identity_id secret) w ≡ (got c, w')
    → (w'.mail_credentials ≡ c ∷ w.mail_credentials)
      × (is_live_for identity_id c ≡ true)
      × (c.secret_fingerprint ≡ d.sha256_hex secret)
      × (w'.effects ≡ w.effects)
unfolding create_mail_credential insert_mail_credential set_mail_credentials credential_for
create_mail_credential-rows d identity_id secret w w' c h =
    let self = ==_refl identity_id in
    (
      ground arith,
      (let (e, s) : (c.mail_identity_id ≡ identity_id) × (c.status ≡ CredentialStatus.active) =
            (ground arith, ground arith) in
          rw (e, s, self) refl),
      ground arith,
      ground arith,
    )

module _ (d : Deps) (m : MailIdentity) where
  -- After a rotation that succeeds, exactly one credential of the identity is in force; its
  -- fingerprint is the hash of the secret that is returned, and the last thing done to the mail
  -- server is that it took this secret as the password of the identity's user.
  pub rotate-one_live :
      (w w' : World) (r : Rotated)
      → rotate d m w ≡ (got r, w')
      → (count (is_live_for m.id) w'.mail_credentials ≡ 1)
        × ((c : MailCredential) × (rest : List MailCredential) × (w'.mail_credentials ≡ c ∷ rest)
            × (c.id ≡ r.credential_id)
            × (is_live_for m.id c ≡ true)
            × (c.secret_fingerprint ≡ d.sha256_hex r.secret))
        × (w'.effects ≡ Effect.change_password m.chasquid_username r.secret ∷ w.effects)
  unfolding rotate
  rotate-one_live w w' r h =
      let drawn = draw d w in
      elim (Result-cases (change_password d m.chasquid_username drawn.0 drawn.1)) [
        | inr (e, w1, q) ↦ ground arith
        | inl (u, w1, q) ↦ elim (Result-cases (revoke_credentials_by_identity d m.id w1)) [
          | inr (e, w2, s) ↦ ground arith
          | inl (v, w2, s) ↦
              elim (Result-cases
                (create_mail_credential d (credential_for d.sha256_hex m.id drawn.0) w2)) [
                  | inr (e, w3, t) ↦ ground arith
                  | inl (c, w3, t) ↦
                      let (none_left, quiet) = revoke_credentials-none d m.id w1 w2 v s in
                      let (rows, live, print, still) =
                        create_mail_credential-rows d m.id drawn.0 w2 w3 c t in
                      let (body, after) : (r ≡ record { credential_id = c.id; secret = drawn.0 })
                          × (w3 ≡ w') =
                        (ground arith, ground arith) in
                      let sent : w1.effects
                          ≡ Effect.change_password m.chasquid_username drawn.0 ∷ w.effects =
                        unfold change_password mta_effect in ground arith in
                      rw (body, ← after)
                        (
                          rw rows (unfold count in rw (live, none_left) refl),
                          (c, w2.mail_credentials, rows, refl, live, print),
                          still ∙ quiet ∙ sent,
                        )
                ]
        ]
      ]
