-- ===== src/Store/Exec.antt =====
-- Calls that may fail, and what the program is given by its surroundings. Every statement on the
-- database and every request to another system is a call; `fails n` says that the n-th call fails,
-- and a call that fails changes nothing.
pub mod Tables
use selfu.Base.{
  ◌≡◌, refl, ap, ◌⊎◌, inl, inr, Bool-cases, ℕ, ◌+◌, Bool, true, false, Option, some, none, Text,
  Checked, List, if◌then◌else◌,
}
use selfu.Store.State.{World}

-- `ErrNotFound`, `ErrConflict`, `ErrHasDependents`, `ErrForeignDestination`, and any other error
pub data StoreError : Type 0 where
  not_found conflict has_dependents foreign_destination failed : StoreError

pub data Result {ℓ} (A : Type ℓ) : Type ℓ where
  got : A → Result A
  fails : StoreError → Result A

-- The parts of `Deps` of internal/httpapi/handlers.go that are not the store, and randomness:
-- `random n` is the n-th text drawn from crypto/rand or google/uuid. A seam that may be nil has a
-- flag that says whether it is there.
pub record Deps : Type 0 where
  pub fails : ℕ → Bool
  pub random : ℕ → Text
  pub sha256_hex : Text → Text
  pub to_ascii : Text → Checked Text
  pub provider_name : Text
  pub has_identity : Bool
  pub external_pk : Text → Text
  pub has_password_setter : Bool
  pub has_chasquid : Bool
  pub has_mail_provision : Bool
  pub has_dns_provider : Bool
  pub has_txt_lookup : Bool
  pub txt_records : ℕ → Text → List Text
  pub user_exists : ℕ → Text → Bool
  pub dkim : Text → Text × Text

abbrev pub Act {ℓ} : Type ℓ → Type ℓ
Act A = World → Result A × World

abbrev pub tick : World → World
tick w = record w { calls = w.calls + 1 }

module _ {ℓ} {A : Type ℓ} (d : Deps) where
  -- One call: it fails, or does what `body` says.
  abbrev pub call : Act A → Act A
  call body w = if d.fails w.calls then (fails failed, tick w) else body (tick w)

module _ (d : Deps) where
  -- `uuid.NewString()` and the random tokens
  abbrev pub draw : World → Text × World
  draw w = (d.random w.draws, record w { draws = w.draws + 1 })

abbrev pub is_got {ℓ} : {A : Type ℓ} → Result A → Bool
is_got (got a) = true
is_got (fails e) = false

-- `row, ErrNoRows → ErrNotFound`
abbrev pub found {ℓ} : {A : Type ℓ} → Option A → Result A
found (some a) = got a
found none = fails not_found

-- `if err == nil { … } else { … }` after a call
abbrev pub on {ℓ κ} :
    {A : Type ℓ} {B : Type κ} → Result A × World → (A → World → B) → (StoreError → World → B) → B
on (got a, w) good bad = good a w
on (fails e, w) good bad = bad e w

-- To split on what a call returned and keep the equation.
pub Result-cases {ℓ} :
    {A : Type ℓ} (r : Result A × World)
    → ((a : A) × (w : World) × (r ≡ (got a, w)))
      ⊎ ((e : StoreError) × (w : World) × (r ≡ (fails e, w)))
Result-cases (got a, w) = inl (a, w, refl)
Result-cases (fails e, w) = inr (e, w, refl)

pub fails-ne_got {ℓ} :
    {A : Type ℓ} {e : StoreError} {a : A} {w after : World}
    → ¬ (◌≡◌ {A = Result A × World} (fails e, w) (got a, after))
fails-ne_got {A = A} h = absurd_result (ap (λ r. r.0) h)
  where
    absurd_result : {e : StoreError} {a : A} → ¬ (◌≡◌ {A = Result A} (fails e) (got a))
    absurd_result q = cc

-- A call that returned a value did what its body says.
pub call-got {ℓ} :
    {A : Type ℓ} (d : Deps) (body : Act A) (w after : World) (a : A)
    → call d body w ≡ (got a, after)
    → body (tick w) ≡ (got a, after)
call-got d body w after a h = elim (Bool-cases (d.fails w.calls)) [
  | inl up ↦ absurd (fails-ne_got (rw up at h))
  | inr up ↦ rw up at h
]
