-- ===== src/Base/TrimLaws.antt =====
-- Laws of trimming a text.
use Prim.Native.Nat.{ℕ, ◌≤◌}
use mathlib.Core.Path.{◌≡◌, refl, ap}
use mathlib.Core.Logic.{inl, inr}
use mathlib.Core.Bool.{Bool, false, ◌&&◌}
use mathlib.Core.List.{[], ◌∷◌, ◌++◌}
use native.Mathlib.Omega.{arith}
use selfu.Base.Tests.{Bool-cases}
use selfu.Base.Lists.{is_empty, length, All}
use selfu.Base.Strings.{Text, is_space, trim_left, trim_right, trim_space}
use selfu.Base.TextLaws.{trim_left-All, trim_right-All}

trim_right_idem : (p : ℕ → Bool) (s : Text) → trim_right p (trim_right p s) ≡ trim_right p s
unfolding trim_right
trim_right_idem p [] = refl
trim_right_idem p (c ∷ s) = elim (Bool-cases (p c && is_empty (trim_right p s))) [
  | inl e ↦ rw e refl
  | inr e ↦ rw e (rw (trim_right_idem p s) (rw e refl))
]

trim_left_idem : (p : ℕ → Bool) (s : Text) → trim_left p (trim_left p s) ≡ trim_left p s
unfolding trim_left
trim_left_idem p [] = refl
trim_left_idem p (c ∷ s) = elim (Bool-cases (p c)) [
  | inl e ↦ rw e (trim_left_idem p s)
  | inr e ↦ rw e (rw e refl)
]

length-trim_left : (p : ℕ → Bool) (s : Text) → length (trim_left p s) ≤ length s
unfolding trim_left
length-trim_left p [] = omega arith
length-trim_left p (c ∷ s) = let ih = length-trim_left p s in ground arith

-- A text that begins with no space still does so after it was trimmed on the right.
trim_left-trim_right :
    (p : ℕ → Bool) (s : Text) → trim_left p s ≡ s → trim_left p (trim_right p s) ≡ trim_right p s
unfolding trim_right trim_left
trim_left-trim_right p [] h = refl
trim_left-trim_right p (c ∷ s) h = elim (Bool-cases (p c)) [
  | inl e ↦
      let same : trim_left p s ≡ c ∷ s = rw e at h in
      let longer = ap length same in absurd (omega (arith, length-trim_left p s, longer))
  | inr e ↦ rw e (rw e refl)
]

pub trim_space_idem : (s : Text) → trim_space (trim_space s) ≡ trim_space s
unfolding trim_space
trim_space_idem s =
    rw (trim_left-trim_right is_space (trim_left is_space s) (trim_left_idem is_space s))
      (trim_right_idem is_space (trim_left is_space s))

pub trim_space-All : (P : ℕ → Type 0) (s : Text) → All P s → All P (trim_space s)
unfolding trim_space
trim_space-All P s h =
    trim_right-All P is_space (trim_left is_space s) (trim_left-All P is_space s h)

pub is_empty-append : (s t : Text) → is_empty t ≡ false → is_empty (s ++ t) ≡ false
is_empty-append [] t h = h
is_empty-append (c ∷ s) t h = refl

-- What stands before a text that is not all trimmed away is kept.
pub trim_right-append :
    (p : ℕ → Bool) (s t : Text)
    → is_empty (trim_right p t) ≡ false
    → trim_right p (s ++ t) ≡ s ++ trim_right p t
unfolding trim_right
trim_right-append p [] t h = refl
trim_right-append p (c ∷ s) t h =
    let full = is_empty-append s (trim_right p t) h in
    rw (trim_right-append p s t h) (ground (arith, full))
