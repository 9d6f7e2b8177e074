-- ===== src/Auth/Tokens.antt =====
-- What session tokens promise.
use selfu.Base.{
  ℕ, ◌+◌, ◌≤◌, ◌<◌, ◌≡◌, ◌≢◌, inl, inr, refl, true, false, ◌||◌, Option, none, some, [], ◌∷◌, arith,
  Bool-cases, Option-cases, Text, ◌==◌, ==_iff, ==_refl, All, is_empty, cut, cut_first, ltb, ap,
  ◌∙◌,
}
use selfu.Auth.{
  Codec, Session, SessionStore, encode, read_payload, check_signature, decode, issue, unexpired,
  validate,
}

-- What the code relies on: base64 decodes what it encodes, to no empty text, with no dot in it, and
-- the JSON text of this user's payload reads back.
pub record IsFaithful (c : Codec) (user : Text) : Type 0 where
  pub of_base64-to_base64 : (s : Text) → c.of_base64 (c.to_base64 s) ≡ some s
  pub dotless : (s : Text) → All (λ b. b ≢ b'.') (c.to_base64 s)
  pub payload_used : (exp : ℕ) → c.to_base64 (c.marshal user exp) ≢ []
  pub signature_used : (key s : Text) → c.to_base64 (c.hmac_sha256 key s) ≢ []
  pub unmarshal-marshal : (exp : ℕ) → c.unmarshal (c.marshal user exp) ≡ some (user, exp)

is_empty-ne : (s : Text) → s ≢ [] → is_empty s ≡ false
is_empty-ne [] h = absurd (h refl)
is_empty-ne (c ∷ s) h = refl

module _ (c : Codec) (s : SessionStore) (user : Text) where
  decode-encode :
      (exp : ℕ)
      → IsFaithful c user
      → user ≢ []
      → decode c s (encode c s (record { user_id = user; expires_at = exp }))
        ≡ some (record { user_id = user; expires_at = exp })
  unfolding decode encode
  decode-encode exp law used =
      let p = c.to_base64 (c.marshal user exp) in
      rw
        (
          cut_first b'.' p (c.to_base64 (c.hmac_sha256 s.key p)) (law.dotless (c.marshal user exp)),
          is_empty-ne p (law.payload_used exp),
          is_empty-ne (c.to_base64 (c.hmac_sha256 s.key p)) (law.signature_used s.key p),
          law.of_base64-to_base64 (c.marshal user exp),
          law.of_base64-to_base64 (c.hmac_sha256 s.key p),
          ==_refl (c.hmac_sha256 s.key p),
          law.unmarshal-marshal exp,
          is_empty-ne user used,
        )
        refl

  -- A token that was issued to a user, who has a non-empty id, is valid for exactly the lifetime of
  -- the store, and names this user: before its end it yields the session, from its end on nothing.
  pub validate-issue :
      (now later : ℕ)
      → IsFaithful c user
      → user ≢ []
      → (later < now + s.ttl
          → validate c s later (issue c s now user)
            ≡ some (record { user_id = user; expires_at = now + s.ttl }))
        × (now + s.ttl ≤ later → validate c s later (issue c s now user) ≡ none)
  unfolding validate issue
  validate-issue now later law used =
      let back = decode-encode (now + s.ttl) law used in
      (
        λ before. let e : ltb later (now + s.ttl) ≡ true = ground arith in rw (back, e) refl,
        λ after. let e : ltb later (now + s.ttl) ≡ false = ground arith in rw (back, e) refl,
      )

none-ne_some : {A : Type 0} {a : A} → ¬ (◌≡◌ {A = Option A} none (some a))
none-ne_some h = cc

read_payload-used :
    (o : Option (Text × ℕ)) (now : ℕ) (session : Session)
    → unexpired now (read_payload o) ≡ some session
    → (o ≡ some (session.user_id, session.expires_at))
      × (session.user_id ≢ [])
      × (now < session.expires_at)
unfolding read_payload unexpired
read_payload-used none now session h = absurd (none-ne_some h)
read_payload-used (some ([], exp)) now session h = absurd (none-ne_some h)
read_payload-used (some (b ∷ user, exp)) now session h = elim (Bool-cases (ltb now exp)) [
  | inr e ↦ absurd (none-ne_some (rw e at h))
  | inl e ↦
      let same : record { user_id = b ∷ user; expires_at = exp } ≡ session =
        (let k = rw e at h in cc) in
      rw (← same) (refl, λ k. cc, ground arith)
]

signed_parts :
    (c : Codec) (s : SessionStore) (p sig : Text) (now : ℕ) (session : Session)
    → unexpired now (check_signature c s p (c.of_base64 p) (c.of_base64 sig)) ≡ some session
    → (payload : Text) × (c.of_base64 sig ≡ some (c.hmac_sha256 s.key p))
      × (c.of_base64 p ≡ some payload)
      × (c.unmarshal payload ≡ some (session.user_id, session.expires_at))
      × (session.user_id ≢ [])
      × (now < session.expires_at)
unfolding check_signature unexpired
signed_parts c s p sig now session h = elim (Option-cases (c.of_base64 p)) [
  | inl e ↦ absurd (none-ne_some (rw e at h))
  | inr (payload, e) ↦ elim (Option-cases (c.of_base64 sig)) [
    | inl f ↦ absurd (none-ne_some (rw (e, f) at h))
    | inr (mac, f) ↦ elim (Bool-cases (mac == c.hmac_sha256 s.key p)) [
      | inr g ↦ absurd (none-ne_some (rw (e, f, g) at h))
      | inl g ↦
          let (t, used, early) =
            read_payload-used (c.unmarshal payload) now session (rw (e, f, g) at h) in
          (payload, f ∙ ap some ((==_iff mac (c.hmac_sha256 s.key p)).0 g), e, t, used, early)
    ]
  ]
]

module _ (c : Codec) (s : SessionStore) (token : Text) where
  -- A token is accepted only if the part after its first dot decodes to the HMAC of the part before
  -- it under the key of the store, that part decodes to the payload of the session, the session names
  -- a user, and it has not expired.
  pub validate-signed :
      (now : ℕ) (session : Session)
      → validate c s now token ≡ some session
      → (p : Text) × (sig : Text) × (payload : Text) × (cut b'.' token ≡ some (p, sig))
        × (c.of_base64 sig ≡ some (c.hmac_sha256 s.key p))
        × (c.of_base64 p ≡ some payload)
        × (c.unmarshal payload ≡ some (session.user_id, session.expires_at))
        × (session.user_id ≢ [])
        × (now < session.expires_at)
  unfolding validate
  validate-signed now session h = elim (Option-cases (cut b'.' token)) [
    | inl e ↦ absurd (none-ne_some (rw e at h))
    | inr ((p, sig), e) ↦ elim (Bool-cases (is_empty p || is_empty sig)) [
      | inl f ↦ absurd (none-ne_some (rw (e, f) at h))
      | inr f ↦
          let (payload, q, r, t, used, early) =
            signed_parts c s p sig now session (rw (e, f) at h) in
          (p, sig, payload, e, q, r, t, used, early)
    ]
  ]
