-- ===== src/Auth.antt =====
-- internal/auth/session.go: session tokens. A token is the base64 text of a JSON payload, a dot, and
-- the base64 text of the payload's HMAC. Times are in whole seconds.
pub mod Tokens
use selfu.Base.{
  ℕ, ◌+◌, Bool, true, false, ◌||◌, Option, none, some, [], ◌∷◌, ◌++◌, Text, ◌==◌, if◌then◌else◌,
  is_empty, cut, ltb, length, Checked, ok, err, ◌>>=◌, ◌>>◌, reject_if,
}

-- encoding/base64, encoding/json and crypto/hmac, as the code calls them. `marshal` and `unmarshal`
-- stand for the JSON text of a payload of a user id and a time.
pub record Codec : Type 0 where
  pub to_base64 : Text → Text
  pub of_base64 : Text → Option Text
  pub marshal : Text → ℕ → Text
  pub unmarshal : Text → Option (Text × ℕ)
  pub hmac_sha256 : Text → Text → Text
  pub sha256 : Text → Text

pub record Session : Type 0 where
  pub user_id : Text
  pub expires_at : ℕ

-- The fields of SessionStore that tokens depend on
pub record SessionStore : Type 0 where
  pub name : Text
  pub key : Text
  pub ttl : ℕ

-- The payload of a token whose signature was checked
unfoldable pub read_payload : Option (Text × ℕ) → Option Session
read_payload none = none
read_payload (some (user, exp)) =
    if is_empty user then none else some (record { user_id = user; expires_at = exp })

unfoldable pub unexpired : ℕ → Option Session → Option Session
unexpired now none = none
unexpired now (some session) = if ltb now session.expires_at then some session else none

module _ (c : Codec) where
  unfoldable pub new_session_store : Text → Text → ℕ → Checked SessionStore
  new_session_store name secret ttl = do
    reject_if (ltb (length secret) 32) "auth: session secret must be at least 32 bytes"
    reject_if (is_empty name) "auth: session cookie name must be set"
    ok (record { name = name; key = c.sha256 secret; ttl = ttl })

  unfoldable pub encode : SessionStore → Session → Text
  encode s session =
      let p = c.to_base64 (c.marshal session.user_id session.expires_at) in
      p ++ (b'.' ∷ c.to_base64 (c.hmac_sha256 s.key p))

  unfoldable pub check_signature : SessionStore → Text → Option Text → Option Text → Option Session
  unfolding read_payload
  check_signature s payload_b64 none sig = none
  check_signature s payload_b64 (some payload) none = none
  check_signature s payload_b64 (some payload) (some sig) =
      if sig == c.hmac_sha256 s.key payload_b64 then read_payload (c.unmarshal payload) else none

  unfoldable pub decode_parts : SessionStore → Option (Text × Text) → Option Session
  unfolding check_signature
  decode_parts s none = none
  decode_parts s (some (payload_b64, sig_b64)) =
      if is_empty payload_b64 || is_empty sig_b64
      then none
      else check_signature s payload_b64 (c.of_base64 payload_b64) (c.of_base64 sig_b64)

  unfoldable pub decode : SessionStore → Text → Option Session
  unfolding decode_parts
  decode s token = decode_parts s (cut b'.' token)

  unfoldable pub issue : SessionStore → ℕ → Text → Text
  unfolding encode
  issue s now user = encode s (record { user_id = user; expires_at = now + s.ttl })

  unfoldable pub validate : SessionStore → ℕ → Text → Option Session
  unfolding decode unexpired
  validate s now token = unexpired now (decode s token)
