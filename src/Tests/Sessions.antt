-- ===== src/Tests/Sessions.antt =====
-- The theorems on session tokens, with an encoding that keeps the laws of base64 and JSON.
use selfu.Base.{
  ◌<◌, ℕ, ◌+◌, ◌-◌, ◌≡◌, ◌≢◌, refl, ap, Option, none, some, [], ◌∷◌, ◌++◌, arith, Text, text, All,
  cut,
}
use selfu.Auth.{Codec, Session, SessionStore, issue, validate}
use selfu.Auth.Tokens.{IsFaithful, validate-issue, validate-signed}

raise : Text → Text
raise [] = []
raise (c ∷ s) = (c + 47) ∷ raise s

lower : Text → Text
lower [] = []
lower (c ∷ s) = (c - 47) ∷ lower s

lower-raise : (s : Text) → lower (raise s) ≡ s
unfolding lower raise
lower-raise [] = refl
lower-raise (c ∷ s) = let e : (c + 47) - 47 ≡ c = ground arith in rw (e, lower-raise s) refl

raise-dotless : (s : Text) → All (λ b. b ≢ b'.') (raise s)
unfolding raise
raise-dotless [] = tt
raise-dotless (c ∷ s) = (ground arith, raise-dotless s)

of_plain : Text → Option Text
unfolding lower
of_plain [] = none
of_plain (c ∷ s) = some (lower s)

read_pair : Text → Option (Text × ℕ)
read_pair [] = none
read_pair (c ∷ s) = some (s, c)

abbrev plain : Codec
plain = record {
  to_base64 = λ s. b'A' ∷ raise s;
  of_base64 = of_plain;
  marshal = λ user exp. exp ∷ user;
  unmarshal = read_pair;
  hmac_sha256 = λ key s. key ++ s;
  sha256 = λ s. s;
}

faithful : IsFaithful plain (text "bob")
unfolding of_plain read_pair
faithful = record {
  of_base64-to_base64 = λ s. ap some (lower-raise s);
  dotless = λ s. (ground arith, raise-dotless s);
  payload_used = λ exp e. cc;
  signature_used = λ key s e. cc;
  unmarshal-marshal = λ exp. refl;
}

abbrev store : SessionStore
store = record { name = text "selfu_session"; key = text "k"; ttl = 3600 }

abbrev session : Session
session = record { user_id = text "bob"; expires_at = 3700 }

validate-issue_example :
    validate plain store 200 (issue plain store 100 (text "bob")) ≡ some session
validate-issue_example =
    (validate-issue plain store (text "bob") 100 200 faithful (λ e. cc)).0 (ground arith)

validate-signed_example :
    (p : Text) × (sig : Text) × (payload : Text) × (cut b'.' (issue plain store 100 (text "bob"))
      ≡ some (p, sig))
    × (plain.of_base64 sig ≡ some (store.key ++ p))
    × (plain.of_base64 p ≡ some payload)
    × (plain.unmarshal payload ≡ some (text "bob", 3700))
    × (text "bob" ≢ [])
    × (200 < 3700)
validate-signed_example =
    validate-signed plain store (issue plain store 100 (text "bob")) 200 session
      validate-issue_example
