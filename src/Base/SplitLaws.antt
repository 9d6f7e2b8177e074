-- ===== src/Base/SplitLaws.antt =====
-- Laws of splitting a text at a byte.
use Prim.Native.Nat.{ℕ}
use mathlib.Core.Path.{◌≡◌, refl}
use mathlib.Core.Logic.{◌≢◌, inl, inr}
use mathlib.Core.Bool.{false}
use mathlib.Core.List.{List, [], ◌∷◌, ◌++◌}
use mathlib.Core.Option.{some}
use native.Mathlib.Omega.{arith}
use selfu.Base.Tests.{eqb, eqb_iff, Bool-cases}
use selfu.Base.Lists.{All}
use selfu.Base.Strings.{Text, split, cons_head, cut}
use selfu.Base.TextLaws.{split-ne-nil}

cons_head-append :
    (c : ℕ) (ps qs : List Text) → ps ≢ [] → cons_head c (ps ++ qs) ≡ cons_head c ps ++ qs
cons_head-append c [] qs h = absurd (h refl)
cons_head-append c (p ∷ ps) qs h = refl

-- Splitting at the separator that joins two texts.
pub split-append : (b : ℕ) (p t : Text) → split b (p ++ (b ∷ t)) ≡ split b p ++ split b t
unfolding split
split-append b [] t = rw ((eqb_iff b b).1 refl) refl
split-append b (c ∷ p) t =
    let ih = split-append b p t in
    elim (Bool-cases (eqb c b)) [
      | inl e ↦ rw (e, ih) refl
      | inr e ↦ rw (e, ih) (cons_head-append c (split b p) (split b t) (split-ne-nil b p))
    ]

-- A text without the separator is its only part.
pub split_none : (b : ℕ) (s : Text) → All (λ c. c ≢ b) s → split b s ≡ s ∷ []
unfolding split
split_none b [] h = refl
split_none b (c ∷ s) h =
    let e : eqb c b ≡ false = ground (arith, h.0) in rw (split_none b s h.1) (rw e refl)

cons_head-All :
    (P : ℕ → Type 0) (c : ℕ) (parts : List Text)
    → P c
    → All (All P) parts
    → All (All P) (cons_head c parts)
cons_head-All P c [] pc h = ((pc, tt), tt)
cons_head-All P c (part ∷ parts) pc h = ((pc, h.0), h.1)

-- No part holds the separator.
pub split-free : (b : ℕ) (s : Text) → All (All (λ c. c ≢ b)) (split b s)
unfolding split
split-free b [] = (tt, tt)
split-free b (c ∷ s) = elim (Bool-cases (eqb c b)) [
  | inl e ↦ rw e (tt, split-free b s)
  | inr e ↦ rw e (cons_head-All (λ x. x ≢ b) c (split b s) (ground arith) (split-free b s))
]

-- Cutting at the first place of the separator
pub cut_first : (b : ℕ) (s t : Text) → All (λ c. c ≢ b) s → cut b (s ++ (b ∷ t)) ≡ some (s, t)
unfolding cut
cut_first b [] t h = rw ((eqb_iff b b).1 refl) refl
cut_first b (c ∷ s) t h =
    let e : eqb c b ≡ false = ground (arith, h.0) in rw (e, cut_first b s t h.1) refl
