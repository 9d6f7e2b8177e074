-- ===== src/Domain/Slugs/Shape.antt =====
-- The shape of a slug: what `Slugify` returns and leaves alone.
use selfu.Base.{
  ℕ, ◌≡◌, ◌≢◌, ◌⊎◌, inl, inr, refl, sym, ◌∙◌, Bool, true, false, ◌&&◌, [], ◌∷◌, ◌++◌, append_assoc,
  append-nil, arith, Text, text, eqb, is_empty, All, All-imp, Bool-cases, Ends, if◌then◌else◌,
  trim_space, trim_space_none, to_lower, to_lower_none, trim_byte, trim_left, trim_right, is_space,
  lower_byte,
}
use selfu.Domain.Names.{is_alnum}
use selfu.Domain.Names.Hostnames.{IsAlnum}
use selfu.Domain.Slugs.{slug_step, slug_loop, slugify}

-- Lower-case letters, digits and dashes, no dash after a dash, nor at the front if `after` holds.
abbrev pub Chain : Bool → Text → Type 0
Chain after [] = Unit
Chain after (c ∷ s) = (IsAlnum c × Chain false s) ⊎ ((c ≡ b'-') × (after ≡ false) × Chain true s)

abbrev pub IsSlug : Text → Type 0
IsSlug s = (s ≢ []) × Chain true s × (¬ Ends b'-' s)

Chain-snoc :
    (after : Bool) (s : Text) (c : ℕ) → Chain after s → IsAlnum c → Chain after (s ++ (c ∷ []))
Chain-snoc after [] c h k = inl (k, tt)
Chain-snoc after (d ∷ s) c (inl (a, h)) k = inl (a, Chain-snoc false s c h k)
Chain-snoc after (d ∷ s) c (inr (e, f, h)) k = inr (e, f, Chain-snoc true s c h k)

Chain-snoc_dash :
    (after : Bool) (s : Text)
    → Chain after s
    → ¬ Ends b'-' s
    → s ≢ []
    → Chain after (s ++ (b'-' ∷ []))
Chain-snoc_dash after [] h k ne = absurd (ne refl)
Chain-snoc_dash after (d ∷ []) (inl (a, h)) k ne = inl (a, inr (refl, refl, tt))
Chain-snoc_dash after (d ∷ []) (inr (e, f, h)) k ne = absurd (k e)
Chain-snoc_dash after (d ∷ b ∷ s) (inl (a, h)) k ne =
    inl (a, Chain-snoc_dash false (b ∷ s) h k (λ e. cc))
Chain-snoc_dash after (d ∷ b ∷ s) (inr (e, f, h)) k ne =
    inr (e, f, Chain-snoc_dash true (b ∷ s) h k (λ q. cc))

not-Ends-snoc : (s : Text) (c : ℕ) → IsAlnum c → ¬ Ends b'-' (s ++ (c ∷ []))
not-Ends-snoc [] c k e = ground arith
not-Ends-snoc (d ∷ []) c k e = not-Ends-snoc [] c k e
not-Ends-snoc (d ∷ b ∷ s) c k e = not-Ends-snoc (b ∷ s) c k e

abbrev Open : Text → Bool → Type 0
Open out last_dash = Chain true out × (last_dash ≡ false → ¬ Ends b'-' out)

IsAlnum-of_test : (c : ℕ) → is_alnum c ≡ true → IsAlnum c
unfolding is_alnum
IsAlnum-of_test c h = ground arith

test_of_IsAlnum : (c : ℕ) → IsAlnum c → is_alnum c ≡ true
unfolding is_alnum
test_of_IsAlnum c h = ground arith

slug_step-Open :
    (out : Text) (last_dash : Bool) (c : ℕ)
    → Open out last_dash
    → let next = slug_step out last_dash c in Open next.0 next.1
unfolding slug_step
slug_step-Open out last_dash c (h, k) = go (Bool-cases (is_alnum c)) out last_dash h k
  where
    go :
        (is_alnum c ≡ true) ⊎ (is_alnum c ≡ false)
        → (out : Text) (last_dash : Bool) → Chain true out
        → (last_dash ≡ false → ¬ Ends b'-' out)
        → let next = slug_step out last_dash c in Open next.0 next.1
    go (inl e) out last_dash h k =
        let a = IsAlnum-of_test c e in rw e (Chain-snoc true out c h a, λ _. not-Ends-snoc out c a)
    go (inr e) out true h k = rw e (h, k)
    go (inr e) [] false h k = rw e (h, k)
    go (inr e) (d ∷ out) false h k =
        rw e (Chain-snoc_dash true (d ∷ out) h (k refl) (λ q. cc), λ q. cc)

slug_loop-Chain :
    (out : Text) (last_dash : Bool) (s : Text)
    → Open out last_dash
    → Chain true (slug_loop out last_dash s)
unfolding slug_loop
slug_loop-Chain out last_dash [] h = h.0
slug_loop-Chain out last_dash (c ∷ s) h =
    let next = slug_step out last_dash c in
    slug_loop-Chain next.0 next.1 s (slug_step-Open out last_dash c h)

trim_left-Chain : (s : Text) → Chain true s → trim_left (eqb b'-') s ≡ s
unfolding trim_left
trim_left-Chain [] h = refl
trim_left-Chain (c ∷ s) (inl (a, h)) = let e : eqb b'-' c ≡ false = ground arith in rw e refl
trim_left-Chain (c ∷ s) (inr (e, f, h)) = cc

trim_right-Chain : (after : Bool) (s : Text) → Chain after s → Chain after (trim_right (eqb b'-') s)
unfolding trim_right
trim_right-Chain after [] h = tt
trim_right-Chain after (c ∷ s) (inl (a, h)) =
    let e : eqb b'-' c ≡ false = ground arith in rw e (inl (a, trim_right-Chain false s h))
trim_right-Chain after (c ∷ s) (inr (e, f, h)) =
    elim (Bool-cases (eqb b'-' c && is_empty (trim_right (eqb b'-') s))) [
      | inl q ↦ rw q tt
      | inr q ↦ rw q (inr (e, f, trim_right-Chain true s h))
    ]

not-Ends-trim_right : (s : Text) → ¬ Ends b'-' (trim_right (eqb b'-') s)
unfolding trim_right
not-Ends-trim_right [] = λ e. e
not-Ends-trim_right (c ∷ s) = go (trim_right (eqb b'-') s) (not-Ends-trim_right s)
  where
    go :
        (rest : Text)
        → ¬ Ends b'-' rest
        → ¬ Ends b'-' (if eqb b'-' c && is_empty rest then [] else c ∷ rest)
    go [] ih = elim (Bool-cases (eqb b'-' c)) [
      | inl q ↦ rw q (λ e. e)
      | inr q ↦ rw q (λ e. ground arith)
    ]
    go (d ∷ rest) ih = elim (Bool-cases (eqb b'-' c)) [ inl q ↦ rw q ih | inr q ↦ rw q ih ]

trim_byte-Chain :
    (s : Text) → Chain true s → Chain true (trim_byte b'-' s) × (¬ Ends b'-' (trim_byte b'-' s))
unfolding trim_byte
trim_byte-Chain s h = rw (trim_left-Chain s h) (trim_right-Chain true s h, not-Ends-trim_right s)

or_org-IsSlug :
    (out : Text)
    → Chain true out × (¬ Ends b'-' out)
    → IsSlug (if is_empty out then text "org" else out)
or_org-IsSlug [] h = (λ e. cc, ground arith, λ e. ground arith)
or_org-IsSlug (c ∷ out) h = (λ e. cc, h.0, h.1)

-- A slug is never empty, holds only lower-case letters, digits and dashes, does not begin or end
-- with a dash, and has no two dashes in a row.
pub slugify-IsSlug : (s : Text) → IsSlug (slugify s)
unfolding slugify
slugify-IsSlug s =
    let written = slug_loop [] false (to_lower (trim_space s)) in
    or_org-IsSlug (trim_byte b'-' written)
      (trim_byte-Chain written (slug_loop-Chain [] false (to_lower (trim_space s)) (tt, λ _ e. e)))

slug_loop-of_Chain :
    (after : Bool) (out : Text) (last_dash : Bool) (s : Text)
    → Chain after s
    → (after ≡ false → (last_dash ≡ false) × (is_empty out ≡ false))
    → slug_loop out last_dash s ≡ out ++ s
unfolding slug_loop
slug_loop-of_Chain after out last_dash [] h k = sym (append-nil out)
slug_loop-of_Chain after out last_dash (c ∷ s) (inl (a, h)) k = rw (test_of_IsAlnum c a) (
    slug_loop-of_Chain false (out ++ (c ∷ [])) false s h (λ _. (refl, not_empty out c))
    ∙ append_assoc out (c ∷ []) s)
  where
    not_empty : (out : Text) (c : ℕ) → is_empty (out ++ (c ∷ [])) ≡ false
    not_empty [] c = refl
    not_empty (d ∷ out) c = refl
slug_loop-of_Chain after out last_dash (c ∷ s) (inr (e, f, h)) k =
    let plain : is_alnum c ≡ false = unfold is_alnum in ground arith in
    let (open_dash, started) = k f in
    rw (plain, open_dash, started, ← e)
      (slug_loop-of_Chain true (out ++ (c ∷ [])) true s h (λ q. cc) ∙ append_assoc out (c ∷ []) s)

SlugByte :
    (after : Bool) (s : Text)
    → Chain after s
    → All (λ c. (is_space c ≡ false) × (lower_byte c ≡ c)) s
unfolding is_space lower_byte
SlugByte after [] h = tt
SlugByte after (c ∷ s) (inl (a, h)) = ((ground arith, ground arith), SlugByte false s h)
SlugByte after (c ∷ s) (inr (e, f, h)) = ((ground arith, ground arith), SlugByte true s h)

trim_right-of_not_Ends : (s : Text) → ¬ Ends b'-' s → trim_right (eqb b'-') s ≡ s
unfolding trim_right
trim_right-of_not_Ends [] h = refl
trim_right-of_not_Ends (c ∷ []) h = let e : eqb b'-' c ≡ false = ground (arith, h) in rw e
trim_right-of_not_Ends (c ∷ d ∷ s) h =
    rw (trim_right-of_not_Ends (d ∷ s) h)
      (elim (Bool-cases (eqb b'-' c)) [ inl e ↦ rw e | inr e ↦ rw e ])

-- A slug is its own slug: `Slugify` leaves alone what has the shape of its results.
pub slugify-of_IsSlug : (s : Text) → IsSlug s → slugify s ≡ s
unfolding slugify trim_byte
slugify-of_IsSlug [] h = absurd (h.0 refl)
slugify-of_IsSlug (c ∷ s) (ne, chain, ends) = rw (
  trim_space_none (c ∷ s) (All-imp {P = Plain} (λ b k. k.0) (c ∷ s) bytes),
  to_lower_none (c ∷ s) (All-imp {P = Plain} (λ b k. k.1) (c ∷ s) bytes),
  slug_loop-of_Chain true [] false (c ∷ s) chain (λ e. cc),
  trim_left-Chain (c ∷ s) chain,
  trim_right-of_not_Ends (c ∷ s) ends,
)
  where
    Plain : ℕ → Type 0
    Plain b = (is_space b ≡ false) × (lower_byte b ≡ b)

    bytes : All (λ b. (is_space b ≡ false) × (lower_byte b ≡ b)) (c ∷ s)
    bytes = SlugByte true (c ∷ s) chain
