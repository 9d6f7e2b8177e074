-- ===== src/Deploy/Compose/Order.antt =====
-- The order in which sortedKeys of internal/deploy/deploy.go lists the names of the environment.
use selfu.Base.{
  true, false, ◌⊎◌, inl, inr, Bool-cases, List, [], ◌∷◌, Text, if◌then◌else◌, ◌≡◌, refl, sym, ◌∙◌,
  ap, arith, map, text, is_empty, err, ok, ◌==◌, ◌++◌, Option, none, some,
}
use mathlib.Core.List.{Perm, foldr}
use mathlib.Core.List.Perm
use mathlib.Core.List
use native.Mathlib.Nat.{ℕ_set}
use selfu.Deploy.Manifest.{Manifest}
use selfu.Deploy.Compose.{
  env_value, text_ltb, sift, sort_onto, reverse_onto, sorted_keys, compose, compose_lines,
  write_lines,
}

-- Of two strings, neither of which is less, both are the same.
pub text_ltb_total : (s t : Text) → text_ltb s t ≡ false → text_ltb t s ≡ false → s ≡ t
unfolding text_ltb
text_ltb_total [] [] p q = refl
text_ltb_total [] (d ∷ t) p q = ground arith
text_ltb_total (c ∷ s) [] p q = ground arith
text_ltb_total (c ∷ s) (d ∷ t) p q = let ih = text_ltb_total s t in grind arith

text_ltb_asym : (s t : Text) → text_ltb s t ≡ true → text_ltb t s ≡ false
unfolding text_ltb
text_ltb_asym [] [] p = refl
text_ltb_asym [] (d ∷ t) p = refl
text_ltb_asym (c ∷ s) [] p = ground arith
text_ltb_asym (c ∷ s) (d ∷ t) p = let ih = text_ltb_asym s t in ground arith

-- What is not less than a greater string
text_ltb_below : (a b y : Text) → text_ltb a y ≡ true → text_ltb b y ≡ false → text_ltb a b ≡ true
unfolding text_ltb
text_ltb_below a b [] p q = ground arith
text_ltb_below [] [] (d ∷ y) p q = ground arith
text_ltb_below [] (e ∷ b) (d ∷ y) p q = refl
text_ltb_below (c ∷ a) [] (d ∷ y) p q = ground arith
text_ltb_below (c ∷ a) (e ∷ b) (d ∷ y) p q = let ih = text_ltb_below a b y in ground arith

-- Of two different strings, one is less than the other.
text_ltb-cases :
    (s t : Text)
    → ((text_ltb s t ≡ true) × (text_ltb t s ≡ false))
      ⊎ (((text_ltb s t ≡ false) × (text_ltb t s ≡ true)) ⊎ (s ≡ t))
text_ltb-cases s t = elim (Bool-cases (text_ltb s t)) [
  | inl e ↦ inl (e, text_ltb_asym s t e)
  | inr e ↦ elim (Bool-cases (text_ltb t s)) [
    | inl f ↦ inr (inl (e, f))
    | inr f ↦ inr (inr (text_ltb_total s t e f))
  ]
]

-- Two keys take their places in either order.
sift_less :
    (a b : Text) (l : List Text)
    → text_ltb a b ≡ true
    → text_ltb b a ≡ false
    → sift a (sift b l) ≡ sift b (sift a l)
unfolding sift
sift_less a b [] e f = rw e (rw f refl)
sift_less a b (y ∷ l) e f =
    let ih = sift_less a b l e f in
    let below = text_ltb_below b a y in
    elim (Bool-cases (text_ltb a y)) [
      | inl g ↦ elim (Bool-cases (text_ltb b y)) [
        | inl h ↦ rw h (rw g (rw h (ap (λ r. y ∷ r) ih)))
        | inr h ↦ rw h (rw g (rw h (rw e refl)))
      ]
      | inr g ↦ elim (Bool-cases (text_ltb b y)) [
        | inl h ↦ cc (below h g)
        | inr h ↦ rw h (rw g (rw e (rw f refl)))
      ]
    ]

sift_comm : (a b : Text) (l : List Text) → sift a (sift b l) ≡ sift b (sift a l)
sift_comm a b l = elim (text_ltb-cases a b) [
  | inl h ↦ sift_less a b l h.0 h.1
  | inr (inl h) ↦ sym (sift_less b a l h.1 h.0)
  | inr (inr e) ↦ rw e refl
]

sort_onto-sift :
    (k : Text) (keys done : List Text) → sort_onto (sift k done) keys ≡ sift k (sort_onto done keys)
unfolding sort_onto
sort_onto-sift k [] done = refl
sort_onto-sift k (x ∷ keys) done =
    ap (λ l. sort_onto l keys) (sift_comm x k done) ∙ sort_onto-sift k keys (sift x done)

sort_onto-foldr : (keys : List Text) → sort_onto [] keys ≡ foldr sift [] keys
unfolding sort_onto
sort_onto-foldr [] = refl
sort_onto-foldr (k ∷ keys) = sort_onto-sift k keys [] ∙ ap (sift k) (sort_onto-foldr keys)

sorted_keys-Perm :
    (keys others : List Text) → Perm keys others → sorted_keys keys ≡ sorted_keys others
unfolding sorted_keys
sorted_keys-Perm keys others p = ap (reverse_onto []) (
    sort_onto-foldr keys
    ∙ (Perm.foldr-eq (List.is_set (List.is_set ℕ_set)) sift sift_comm p []
        ∙ sym (sort_onto-foldr others)))

module _ (quote : Text → Text) (instance_id : Text) (env others : List (Text × Text))
    (keys : Perm (map (λ e. e.0) env) (map (λ e. e.0) others))
    (values : (k : Text) → env_value k env ≡ env_value k others) where
  compose_lines-Perm :
      (m : Manifest)
      → compose_lines quote instance_id m env ≡ compose_lines quote instance_id m others
  unfolding compose_lines
  compose_lines-Perm m = rw (sorted_keys-Perm (map (λ e. e.0) env) (map (λ e. e.0) others) keys) (
      rw
        (ap
          (λ (value : Text → Text).
            map (λ k. text "      " ++ (k ++ (text ": " ++ quote (value k))))
              (sorted_keys (map (λ e. e.0) others)))
          (λ i k. values k i))
        refl)

  -- The compose file of an instance does not depend on the order in which the program iterates over
  -- the map of its environment: two lists of entries with the same names, in any two orders, and the
  -- same value for each name give the same result, the refusals included.
  pub compose-Perm :
      (m : Option Manifest) → compose quote instance_id m env ≡ compose quote instance_id m others
  unfolding compose
  compose-Perm none = refl
  compose-Perm (some m) =
      ap
        (λ lines.
          if is_empty instance_id
          then err "deploy: instance id is required"
          else if m.engine == text "docker-compose"
          then ok (write_lines lines)
          else err "deploy: catalog entry is not docker-compose")
        (compose_lines-Perm m)
