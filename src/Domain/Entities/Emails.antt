-- ===== src/Domain/Entities/Emails.antt =====
-- Which texts `looksLikeEmail` accepts.
use selfu.Base.{
  ℕ, suc, ◌+◌, ◌≡◌, ◌≢◌, ◌⊎◌, ◌↔◌, inl, inr, refl, ap, sym, subst, ◌∙◌, Option-cases, true, false,
  Option, none, some, [], ◌∷◌, ◌++◌, arith, Text, text, eqb, eqb_iff, length, drop, All, Bool-cases,
  if◌then◌else◌, contains, contains_any, has_prefix, index_byte, last_index_byte,
}
use selfu.Domain.Entities.{domain_part_ok, positions_ok, looks_like_email}

abbrev pub Lacks : ℕ → Text → Type 0
Lacks b s = All (λ c. c ≢ b) s

module _ (b : ℕ) where
  index_byte-none : (s : Text) → Lacks b s → index_byte s b ≡ none
  unfolding index_byte
  index_byte-none [] h = refl
  index_byte-none (c ∷ s) h =
      let e : eqb c b ≡ false = ground (arith, h.0) in rw (e, index_byte-none s h.1)

  index_byte-append : (p t : Text) → Lacks b p → index_byte (p ++ (b ∷ t)) b ≡ some (length p)
  unfolding index_byte
  index_byte-append [] t h = rw ((eqb_iff b b).1 refl)
  index_byte-append (c ∷ p) t h =
      let e : eqb c b ≡ false = ground (arith, h.0) in rw (e, index_byte-append p t h.1)

  last_index_byte-none : (s : Text) → Lacks b s → last_index_byte s b ≡ none
  unfolding last_index_byte
  last_index_byte-none [] h = refl
  last_index_byte-none (c ∷ s) h =
      let e : eqb c b ≡ false = ground (arith, h.0) in
      let ih = last_index_byte-none s h.1 in ground arith

  last_index_byte-append :
      (p t : Text)
      → last_index_byte (p ++ (b ∷ t)) b
        ≡ elim (last_index_byte t b) [ none ↦ some (length p) | some i ↦ some (suc (length p + i)) ]
  unfolding last_index_byte
  last_index_byte-append [] t = let e : eqb b b ≡ true = ground arith in ground arith
  last_index_byte-append (c ∷ p) t = let ih = last_index_byte-append p t in ground arith

  last_index_byte-some : (p t : Text) → last_index_byte (p ++ (b ∷ t)) b ≢ none
  last_index_byte-some p t h = let e = last_index_byte-append p t in ground arith

  contains-byte : (p t : Text) → contains (p ++ (b ∷ t)) (b ∷ []) ≡ true
  unfolding contains has_prefix
  contains-byte [] t = ground arith
  contains-byte (c ∷ p) t = let ih = contains-byte p t in ground arith

  contains_sound :
      (s : Text) → contains s (b ∷ []) ≡ true → (p : Text) × (t : Text) × (s ≡ p ++ (b ∷ t))
  unfolding contains has_prefix
  contains_sound [] h = cc
  contains_sound (c ∷ s) h = elim (Bool-cases (eqb c b)) [
    | inl e ↦ ([], s, ap (λ d. d ∷ s) ((eqb_iff c b).0 e))
    | inr e ↦ let (p, t, q) = contains_sound s (ground arith) in (c ∷ p, t, ap (λ u. c ∷ u) q)
  ]

  drop-append : (p t : Text) → drop (suc (length p)) (p ++ (b ∷ t)) ≡ t
  drop-append [] t = refl
  drop-append (c ∷ p) t = drop-append p t

  -- A text lacks the byte, or falls apart at its first occurrence.
  first_byte : (s : Text) → Lacks b s ⊎ ((p : Text) × (t : Text) × Lacks b p × (s ≡ p ++ (b ∷ t)))
  first_byte [] = inl tt
  first_byte (c ∷ s) = go (Bool-cases (eqb c b)) (first_byte s)
    where
      go :
          (eqb c b ≡ true) ⊎ (eqb c b ≡ false)
          → Lacks b s ⊎ ((p : Text) × (t : Text) × Lacks b p × (s ≡ p ++ (b ∷ t)))
          → Lacks b (c ∷ s) ⊎ ((p : Text) × (t : Text) × Lacks b p × (c ∷ s ≡ p ++ (b ∷ t)))
      go (inl e) _ = inr ([], s, tt, ap (λ d. d ∷ s) ((eqb_iff c b).0 e))
      go (inr e) (inl l) = inl (λ q. ground arith, l)
      go (inr e) (inr (p, t, l, q)) = inr (c ∷ p, t, (λ q. ground arith, l), ap (λ u. c ∷ u) q)

-- No space and no tab.
abbrev pub Unspaced : Text → Type 0
Unspaced s = All (λ c. (c ≢ b' ') × (c ≢ b'\t')) s

contains_any-Unspaced : (s : Text) → (contains_any s (text " \t") ≡ false) ↔ Unspaced s
unfolding contains_any
contains_any-Unspaced [] = (λ _. tt, λ _. refl)
contains_any-Unspaced (c ∷ s) =
    let ih = contains_any-Unspaced s in
    (
      λ h. ((ground arith, ground arith), ih.0 (ground arith)),
      λ h. let k = ih.1 h.1 in ground (arith, h.0.0, h.0.1, k),
    )

-- An address is a non-empty local part without "@", an "@", and a domain part that has a dot, and
-- no "@", space or tab.
abbrev pub IsEmail : Text → Type 0
IsEmail s =
    (local : Text) × (domain : Text) × (s ≡ local ++ (b'@' ∷ domain))
    × (local ≢ [])
    × Lacks b'@' local
    × Lacks b'@' domain
    × Unspaced domain
    × ((host : Text) × (top : Text) × (domain ≡ host ++ (b'.' ∷ top)))

domain_part_ok_iff :
    (d : Text)
    → (domain_part_ok d ≡ true)
      ↔ (Unspaced d × ((host : Text) × (top : Text) × (d ≡ host ++ (b'.' ∷ top))))
unfolding domain_part_ok
domain_part_ok_iff [] = (λ h. cc, λ (_, (p, t, e)). absurd (nil_ne p t e))
  where
    nil_ne : (p t : Text) → [] ≢ p ++ (b'.' ∷ t)
    nil_ne [] t e = cc
    nil_ne (c ∷ p) t e = cc
domain_part_ok_iff (c ∷ d) = (to, from)
  where
    to :
        (if contains_any (c ∷ d) (text " \t") then false else contains (c ∷ d) (text ".")) ≡ true
        → Unspaced (c ∷ d) × ((host : Text) × (top : Text) × ((c ∷ d) ≡ host ++ (b'.' ∷ top)))
    to h = elim (Bool-cases (contains_any (c ∷ d) (text " \t"))) [
      | inl e ↦ cc (rw e at h)
      | inr e ↦ ((contains_any-Unspaced (c ∷ d)).0 e, contains_sound b'.' (c ∷ d) (rw e at h))
    ]

    from :
        Unspaced (c ∷ d) × ((host : Text) × (top : Text) × ((c ∷ d) ≡ host ++ (b'.' ∷ top)))
        → (if contains_any (c ∷ d) (text " \t") then false else contains (c ∷ d) (text ".")) ≡ true
    from (u, (host, top, e)) =
        rw ((contains_any-Unspaced (c ∷ d)).1 u)
          (subst (λ u. contains u (text ".") ≡ true) (sym e) (contains-byte b'.' host top))

module _ (local domain : Text) (lacks : Lacks b'@' local) where
  -- The test of a text that is split at its first "@", where the rest holds no other one.
  looks_like_email-append :
      Lacks b'@' domain
      → looks_like_email (local ++ (b'@' ∷ domain))
        ≡ (if eqb (length local) 0 then false else domain_part_ok domain)
  unfolding looks_like_email positions_ok
  looks_like_email-append later =
      let last : last_index_byte (local ++ (b'@' ∷ domain)) b'@' ≡ some (length local) =
        last_index_byte-append b'@' local domain
        ∙ rw (last_index_byte-none b'@' domain later) refl in
      rw (index_byte-append b'@' local domain lacks, last, drop-append b'@' local domain)
        (ground arith)

  -- A second "@" is refused.
  looks_like_email_again :
      (i : ℕ)
      → last_index_byte domain b'@' ≡ some i
      → looks_like_email (local ++ (b'@' ∷ domain)) ≡ false
  unfolding looks_like_email positions_ok
  looks_like_email_again i e =
      let last : last_index_byte (local ++ (b'@' ∷ domain)) b'@' ≡ some (suc (length local + i)) =
        last_index_byte-append b'@' local domain ∙ rw e refl in
      rw (index_byte-append b'@' local domain lacks, last) (ground arith)

length-ne_zero : (s : Text) → s ≢ [] → eqb (length s) 0 ≡ false
length-ne_zero [] h = absurd (h refl)
length-ne_zero (c ∷ s) h = ground arith

looks_like_email_no_local : (domain : Text) → looks_like_email (b'@' ∷ domain) ≡ false
unfolding looks_like_email positions_ok
looks_like_email_no_local domain =
    rw (index_byte-append b'@' [] domain tt) (go (last_index_byte (b'@' ∷ domain) b'@'))
  where
    go : (last : Option ℕ) → positions_ok (some 0) last (b'@' ∷ domain) ≡ false
    go none = refl
    go (some i) = refl

-- An accepted text that is split at its first "@".
accepted_parts :
    (local domain : Text)
    → Lacks b'@' local
    → looks_like_email (local ++ (b'@' ∷ domain)) ≡ true
    → IsEmail (local ++ (b'@' ∷ domain))
accepted_parts [] domain l h = cc (looks_like_email_no_local domain)
accepted_parts (c ∷ local) domain l h = go (first_byte b'@' domain)
  where
    go :
        Lacks b'@' domain ⊎ ((p : Text) × (t : Text) × Lacks b'@' p × (domain ≡ p ++ (b'@' ∷ t)))
        → IsEmail ((c ∷ local) ++ (b'@' ∷ domain))
    go (inl m) =
        let ok_part : domain_part_ok domain ≡ true =
          rw (length-ne_zero (c ∷ local) (λ q. cc)) at
            (sym (looks_like_email-append (c ∷ local) domain l m) ∙ h) in
        let (u, dotted) = (domain_part_ok_iff domain).0 ok_part in
        (c ∷ local, domain, refl, λ e. cc, l, m, u, dotted)
    go (inr (p, t, k, e)) = elim (Option-cases (last_index_byte domain b'@')) [
      | inl q ↦ absurd (last_index_byte-some b'@' p t (rw e at q))
      | inr (i, q) ↦ cc (looks_like_email_again (c ∷ local) domain l i q)
    ]

-- `looksLikeEmail` accepts exactly these addresses.
pub looks_like_email_iff : (s : Text) → (looks_like_email s ≡ true) ↔ IsEmail s
looks_like_email_iff s = (to (first_byte b'@' s), from)
  where
    to :
        Lacks b'@' s ⊎ ((p : Text) × (t : Text) × Lacks b'@' p × (s ≡ p ++ (b'@' ∷ t)))
        → looks_like_email s ≡ true
        → IsEmail s
    to (inl l) h =
        let e : looks_like_email s ≡ false =
          unfold looks_like_email positions_ok in rw (index_byte-none b'@' s l) refl in
        cc
    to (inr (p, t, l, e)) h = rw e (accepted_parts p t l (rw e at h))

    from : IsEmail s → looks_like_email s ≡ true
    from (local, domain, e, ne, l, m, u, dotted) =
        rw (e, looks_like_email-append local domain l m, length-ne_zero local ne)
          ((domain_part_ok_iff domain).1 (u, dotted))
