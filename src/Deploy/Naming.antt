-- ===== src/Deploy/Naming.antt =====
-- The shape of derived names.
use selfu.Base.{
  ℕ, suc, ◌+◌, ◌≤◌, ◌≡◌, ◌≢◌, inl, inr, refl, Bool, true, ◌||◌, ◌&&◌, [], ◌∷◌, Text, text, arith,
  leb, ltb, eqb, length, take, length-take, is_empty, if◌then◌else◌, trim_byte, Bool-cases, All,
  All-take, trim_left-All, trim_right-All, trim_left,
}
use selfu.Deploy.{is_lower_alnum, keep_bytes, bounded, project_name, router_name}

abbrev pub Kept : (ℕ → Bool) → ℕ → Type 0
Kept extra c = (is_lower_alnum c || extra c) ≡ true

keep_bytes-Kept : (extra : ℕ → Bool) (s : Text) → All (Kept extra) (keep_bytes extra s)
unfolding keep_bytes
keep_bytes-Kept extra [] = tt
keep_bytes-Kept extra (c ∷ s) =
    let ih = keep_bytes-Kept extra s in
    elim (Bool-cases (is_lower_alnum c || extra c)) [
      | inl e ↦ rw e (e, ih)
      | inr e ↦ elim (Bool-cases (leb b'A' c && leb c b'Z')) [
        | inr f ↦ rw (e, f) ih
        | inl f ↦
            let upper : is_lower_alnum (c + 32) ≡ true = unfold is_lower_alnum in ground arith in
            rw (e, f) (rw upper refl, ih)
      ]
    ]

bounded-short : (n : ℕ) (s : Text) → length (bounded n s) ≤ n
unfolding bounded
bounded-short n s =
    let name = if is_empty s then text "app" else s in
    let short = length-take n name in
    elim (Bool-cases (ltb n (length name))) [ inl e ↦ rw e short | inr e ↦ rw e (ground arith) ]

bounded-All :
    (P : ℕ → Type 0) (n : ℕ) (s : Text) → All P (text "app") → All P s → All P (bounded n s)
unfolding bounded
bounded-All P n s app h =
    let name = if is_empty s then text "app" else s in
    let named : All P name = elim (Bool-cases (is_empty s)) [ inl e ↦ rw e app | inr e ↦ rw e h ] in
    elim (Bool-cases (ltb n (length name))) [
      | inl e ↦ rw e (All-take P n name named)
      | inr e ↦ rw e named
    ]

take-ne_nil : (n : ℕ) (s : Text) → s ≢ [] → take (suc n) s ≢ []
take-ne_nil n [] h e = h refl
take-ne_nil n (c ∷ s) h e = cc

bounded-ne_nil : (n : ℕ) (s : Text) → bounded (suc n) s ≢ []
unfolding bounded
bounded-ne_nil n [] = elim (Bool-cases (ltb (suc n) 3)) [
  | inl e ↦ λ q. take-ne_nil n (text "app") (λ k. cc) (rw e at q)
  | inr e ↦ λ q. let k = rw e at q in cc
]
bounded-ne_nil n (c ∷ s) = elim (Bool-cases (ltb (suc n) (length (c ∷ s)))) [
  | inl e ↦ λ q. take-ne_nil n (c ∷ s) (λ k. cc) (rw e at q)
  | inr e ↦ λ q. let k = rw e at q in cc
]

-- The name of a compose project is never empty, has at most 40 bytes, and holds only lower-case
-- letters, digits, dashes and underscores, whatever the instance id is.
pub project_name-IsProjectName :
    (id : Text)
    → (project_name id ≢ [])
      × (length (project_name id) ≤ 40)
      × All (Kept (λ c. eqb c b'-' || eqb c b'_')) (project_name id)
unfolding project_name
project_name-IsProjectName id =
    let kept = keep_bytes-Kept (λ c. eqb c b'-' || eqb c b'_') id in
    let written = keep_bytes (λ c. eqb c b'-' || eqb c b'_') id in
    (
      bounded-ne_nil 39 written,
      bounded-short 40 written,
      bounded-All (Kept (λ c. eqb c b'-' || eqb c b'_')) 40 written
          (unfold is_lower_alnum in (refl, (refl, (refl, tt)))) kept,
    )

-- The name of a router is never empty, has at most 20 bytes, and holds only lower-case letters,
-- digits and dashes, whatever the instance id is.
pub router_name-IsRouterName :
    (id : Text)
    → (router_name id ≢ [])
      × (length (router_name id) ≤ 20)
      × All (Kept (λ c. eqb c b'-')) (router_name id)
unfolding router_name trim_byte
router_name-IsRouterName id =
    let kept = keep_bytes-Kept (λ c. eqb c b'-') id in
    let written = trim_byte b'-' (keep_bytes (λ c. eqb c b'-') id) in
    let trimmed : All (Kept (λ c. eqb c b'-')) written =
      trim_right-All (Kept (λ c. eqb c b'-')) (eqb b'-')
        (trim_left (eqb b'-') (keep_bytes (λ c. eqb c b'-') id))
        (trim_left-All (Kept (λ c. eqb c b'-')) (eqb b'-') (keep_bytes (λ c. eqb c b'-') id)
          kept) in
    (
      bounded-ne_nil 19 written,
      bounded-short 20 written,
      bounded-All (Kept (λ c. eqb c b'-')) 20 written
          (unfold is_lower_alnum in (refl, (refl, (refl, tt)))) trimmed,
    )
