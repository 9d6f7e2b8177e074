-- ===== src/HttpApi/Sealing.antt =====
-- Secrets at rest: internal/httpapi/crypto.go. `gcm_seal` and `gcm_open` are AES-256-GCM of
-- crypto/cipher under a key and a nonce; a key of 32 bytes, which the digest is, is always taken.
use selfu.Base.{ℕ, Option, none, Text, ◌++◌, length, take, drop, ltb, if◌then◌else◌}
use selfu.Store.State.{World}
use selfu.Store.Exec.{Deps, draw}

pub record Aead : Type 0 where
  pub nonce_size : ℕ
  pub gcm_seal : Text → Text → Text → Text
  pub gcm_open : Text → Text → Text → Option Text
  pub sha256 : Text → Text

module _ (a : Aead) where
  unfoldable pub encrypt_secret : Deps → Text → Text → World → Text × World
  encrypt_secret d key plaintext w =
      let (nonce, after) = draw d w in (nonce ++ a.gcm_seal (a.sha256 key) nonce plaintext, after)

  unfoldable pub decrypt_secret : Text → Text → Option Text
  decrypt_secret key sealed =
      if ltb (length sealed) a.nonce_size
      then none
      else a.gcm_open (a.sha256 key) (take a.nonce_size sealed) (drop a.nonce_size sealed)
