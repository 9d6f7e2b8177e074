-- ===== src/Base/Results.antt =====
-- What a validating function returns: a value, or the text of its error.
use Prim.Native.String.{String}
use mathlib.Core.Path.{◌≡◌, refl}
use mathlib.Core.Logic.{◌⊎◌, inl, inr}
use mathlib.Core.Bool.{Bool, true, false}

pub data Checked {ℓ} (A : Type ℓ) : Type ℓ where
  err : String → Checked A
  ok : A → Checked A

module _ {ℓ κ} {A : Type ℓ} {B : Type κ} where
  infixl 5 ◌>>=◌
  abbrev pub ◌>>=◌ : Checked A → (A → Checked B) → Checked B
  err message >>= next = err message
  ok value >>= next = next value

module _ {ℓ} {B : Type ℓ} where
  infixl 5 ◌>>◌
  abbrev pub ◌>>◌ : Checked (Unit {0}) → Checked B → Checked B
  check >> next = check >>= λ u. next

-- `if bad { return …, errors.New(message) }`
abbrev pub reject_if : Bool → String → Checked (Unit {0})
reject_if true message = err message
reject_if false message = ok tt

-- A chain succeeds only if both of its steps do.
module _ {ℓ κ} {A : Type ℓ} {B : Type κ} where
  pub >>=-eq-ok :
      (check : Checked A) (next : A → Checked B) {result : B}
      → (check >>= next) ≡ ok result
      → (value : A) × (check ≡ ok value) × (next value ≡ ok result)
  >>=-eq-ok (err message) next h = cc
  >>=-eq-ok (ok value) next h = (value, refl, h)

pub reject_if-eq-ok : (b : Bool) (m : String) {u : Unit {0}} → reject_if b m ≡ ok u → b ≡ false
reject_if-eq-ok true m h = cc
reject_if-eq-ok false m h = refl

pub Checked-cases {ℓ} :
    {A : Type ℓ} (m : Checked A) → ((a : A) × (m ≡ ok a)) ⊎ ((e : String) × (m ≡ err e))
Checked-cases (ok a) = inl (a, refl)
Checked-cases (err e) = inr (e, refl)
