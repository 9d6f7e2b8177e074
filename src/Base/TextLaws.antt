-- ===== src/Base/TextLaws.antt =====
-- Laws of the text functions: comparison, trimming, lower case, splitting.
use Prim.Native.Nat.{ℕ}
use mathlib.Core.Path.{◌≡◌, refl, ap, sym, subst}
use mathlib.Core.Logic.{◌↔◌, ◌≢◌, ◌⊎◌, inl, inr}
use mathlib.Core.Bool.{Bool, true, false, ◌&&◌}
use mathlib.Core.List.{List, [], ◌∷◌, ◌++◌}
use native.Mathlib.Omega.{arith}
use selfu.Base.Tests.{eqb, eqb_iff, if◌then◌else◌, Bool-cases}
use selfu.Base.Lists.{All, is_empty}
use selfu.Base.Strings.{
  Text, ◌==◌, is_space, lower_byte, to_lower, trim_left, trim_right, trim_space, trim_suffix, split,
  cons_head,
}

pub ==_iff : (s t : Text) → (s == t ≡ true) ↔ (s ≡ t)
unfolding ◌==◌
==_iff [] [] = (λ _. refl, λ _. refl)
==_iff [] (d ∷ t) = (λ h. cc, λ h. cc)
==_iff (c ∷ s) [] = (λ h. cc, λ h. cc)
==_iff (c ∷ s) (d ∷ t) = ground (arith, ==_iff s t)

pub ==_refl : (s : Text) → (s == s) ≡ true
==_refl s = (==_iff s s).1 refl

pub ==_ne : (s t : Text) → s ≢ t → (s == t) ≡ false
==_ne s t h = ground (arith, ==_iff s t)

pub is_empty-eq_true : (s : Text) → is_empty s ≡ true → s ≡ []
is_empty-eq_true [] h = refl
is_empty-eq_true (c ∷ s) h = cc

-- A text in which no byte satisfies `p` is not trimmed.
pub trim_left_none : (p : ℕ → Bool) (s : Text) → All (λ c. p c ≡ false) s → trim_left p s ≡ s
unfolding trim_left
trim_left_none p [] h = refl
trim_left_none p (c ∷ s) h = rw h.0

pub trim_right_none : (p : ℕ → Bool) (s : Text) → All (λ c. p c ≡ false) s → trim_right p s ≡ s
unfolding trim_right
trim_right_none p [] h = refl
trim_right_none p (c ∷ s) h = rw (trim_right_none p s h.1) (rw h.0)

pub trim_space_none : (s : Text) → All (λ c. is_space c ≡ false) s → trim_space s ≡ s
unfolding trim_space
trim_space_none s h = rw (trim_left_none is_space s h) (trim_right_none is_space s h)

-- A property of all bytes survives trimming.
pub trim_left-All : (P : ℕ → Type 0) (p : ℕ → Bool) (s : Text) → All P s → All P (trim_left p s)
unfolding trim_left
trim_left-All P p [] h = tt
trim_left-All P p (c ∷ s) h = elim (Bool-cases (p c)) [
  | inl e ↦ rw e (trim_left-All P p s h.1)
  | inr e ↦ rw e h
]

pub trim_right-All : (P : ℕ → Type 0) (p : ℕ → Bool) (s : Text) → All P s → All P (trim_right p s)
unfolding trim_right
trim_right-All P p [] h = tt
trim_right-All P p (c ∷ s) h = elim (Bool-cases (p c && is_empty (trim_right p s))) [
  | inl e ↦ rw e tt
  | inr e ↦ rw e (h.0, trim_right-All P p s h.1)
]

pub lower_byte_idem : (c : ℕ) → lower_byte (lower_byte c) ≡ lower_byte c
unfolding lower_byte
lower_byte_idem c = ground arith

pub to_lower_idem : (s : Text) → to_lower (to_lower s) ≡ to_lower s
unfolding to_lower
to_lower_idem [] = refl
to_lower_idem (c ∷ s) = cc (lower_byte_idem c, to_lower_idem s)

pub to_lower_none : (s : Text) → All (λ c. lower_byte c ≡ c) s → to_lower s ≡ s
unfolding to_lower
to_lower_none [] h = refl
to_lower_none (c ∷ s) h = rw h.0 (ap (λ t. c ∷ t) (to_lower_none s h.1))

pub to_lower-append : (s t : Text) → to_lower (s ++ t) ≡ to_lower s ++ to_lower t
unfolding to_lower
to_lower-append [] t = refl
to_lower-append (c ∷ s) t = ap (λ u. lower_byte c ∷ u) (to_lower-append s t)

-- The parts of a split put together again.
abbrev pub unsplit : ℕ → List Text → Text
unsplit b [] = []
unsplit b (part ∷ []) = part
unsplit b (part ∷ next ∷ parts) = part ++ (b ∷ unsplit b (next ∷ parts))

pub split-ne-nil : (b : ℕ) (s : Text) → split b s ≢ []
unfolding split
split-ne-nil b [] h = cc
split-ne-nil b (c ∷ s) h = ne (eqb c b) (split b s) h
  where
    ne : (t : Bool) (parts : List Text) → (if t then [] ∷ parts else cons_head c parts) ≡ [] → ⊥
    ne true parts e = cc
    ne false [] e = cc
    ne false (x ∷ parts) e = cc

-- A property of all bytes of the parts, and of the separator, is one of the whole.
pub split-All : (P : ℕ → Type 0) (b : ℕ) (s : Text) → P b → All (All P) (split b s) → All P s
unfolding split
split-All P b [] pb h = tt
split-All P b (c ∷ s) pb h =
    go (Bool-cases (eqb c b)) (split b s) (split-All P b s pb) (split-ne-nil b s) h
  where
    go :
        (eqb c b ≡ true) ⊎ (eqb c b ≡ false)
        → (parts : List Text) → (All (All P) parts → All P s)
        → parts ≢ []
        → All (All P) (if eqb c b then [] ∷ parts else cons_head c parts)
        → P c × All P s
    go (inl e) parts ih ne k =
        let k' : All (All P) ([] ∷ parts) = rw e at k in
        (subst P (sym ((eqb_iff c b).0 e)) pb, ih k'.1)
    go (inr e) [] ih ne k = absurd (ne refl)
    go (inr e) (part ∷ parts) ih ne k =
        let k' : All (All P) ((c ∷ part) ∷ parts) = rw e at k in (k'.0.0, ih (k'.0.1, k'.1))

abbrev pub Ends : ℕ → Text → Type 0
Ends b [] = ⊥
Ends b (c ∷ []) = c ≡ b
Ends b (c ∷ d ∷ s) = Ends b (d ∷ s)

pub trim_suffix_none : (b : ℕ) (s : Text) → ¬ Ends b s → trim_suffix s (b ∷ []) ≡ s
unfolding trim_suffix ◌==◌
trim_suffix_none b [] h = refl
trim_suffix_none b (c ∷ []) h = ground (arith, h)
trim_suffix_none b (c ∷ d ∷ s) h = rw (trim_suffix_none b (d ∷ s) h) (ground arith)

-- Two parts or more, of which the last is empty.
abbrev EndsEmpty : List Text → Type 0
EndsEmpty [] = ⊥
EndsEmpty (p ∷ []) = ⊥
EndsEmpty (p ∷ q ∷ []) = q ≡ []
EndsEmpty (p ∷ q ∷ r ∷ rs) = EndsEmpty (q ∷ r ∷ rs)

EndsEmpty-cons_head : (c : ℕ) (ps : List Text) → EndsEmpty ps → EndsEmpty (cons_head c ps)
EndsEmpty-cons_head c [] h = h
EndsEmpty-cons_head c (p ∷ []) h = absurd h
EndsEmpty-cons_head c (p ∷ q ∷ []) h = h
EndsEmpty-cons_head c (p ∷ q ∷ r ∷ rs) h = h

EndsEmpty-cons : (p : Text) (ps : List Text) → EndsEmpty ps → EndsEmpty (p ∷ ps)
EndsEmpty-cons p [] h = absurd h
EndsEmpty-cons p (q ∷ []) h = absurd h
EndsEmpty-cons p (q ∷ r ∷ rs) h = h

split-EndsEmpty : (b : ℕ) (s : Text) → Ends b s → EndsEmpty (split b s)
unfolding split
split-EndsEmpty b [] h = absurd h
split-EndsEmpty b (c ∷ []) h = rw ((eqb_iff c b).1 h) refl
split-EndsEmpty b (c ∷ d ∷ s) h =
    go (Bool-cases (eqb c b)) (split b (d ∷ s)) (split-EndsEmpty b (d ∷ s) h)
  where
    go :
        (eqb c b ≡ true) ⊎ (eqb c b ≡ false)
        → (parts : List Text) → EndsEmpty parts
        → EndsEmpty (if eqb c b then [] ∷ parts else cons_head c parts)
    go (inl e) parts k = rw e (EndsEmpty-cons [] parts k)
    go (inr e) parts k = rw e (EndsEmpty-cons_head c parts k)

not-EndsEmpty : (ps : List Text) → All (λ p. p ≢ []) ps → ¬ EndsEmpty ps
not-EndsEmpty [] h e = e
not-EndsEmpty (p ∷ []) h e = e
not-EndsEmpty (p ∷ q ∷ []) h e = h.1.0 e
not-EndsEmpty (p ∷ q ∷ r ∷ rs) h e = not-EndsEmpty (q ∷ r ∷ rs) h.1 e

pub trim_suffix_of_parts :
    (b : ℕ) (s : Text) → All (λ p. p ≢ []) (split b s) → trim_suffix s (b ∷ []) ≡ s
trim_suffix_of_parts b s h =
    trim_suffix_none b s (λ e. not-EndsEmpty (split b s) h (split-EndsEmpty b s e))
