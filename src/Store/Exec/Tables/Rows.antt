-- ===== src/Store/Exec/Tables/Rows.antt =====
-- What updates and deletions do to searches and counts.
use selfu.Base.{
  ◌+◌, ◌≤◌, ◌≡◌, inl, inr, refl, Bool, true, false, none, some, List, [], ◌∷◌, arith, Bool-cases,
  if◌then◌else◌, All, Text,
}
use selfu.Store.Exec.Tables.{
  find, update_where, delete_where, exists, count, before, insert_by, order_by,
}

module _ {ℓ} {A : Type ℓ} where
  -- A row that was found is a row of the table that the test picks.
  pub find-eq-some :
      (p : A → Bool) (xs : List A) (x : A)
      → find p xs ≡ some x
      → (p x ≡ true) × (exists p xs ≡ true)
  unfolding find exists
  find-eq-some p [] x h = cc
  find-eq-some p (y ∷ ys) x h =
      let ih = find-eq-some p ys x in
      elim (Bool-cases (p y)) [ inl e ↦ ground arith | inr e ↦ ground arith ]

  -- Nothing is found that no row of the updated table passes.
  pub find-update_where-none :
      (p q : A → Bool) (f : A → A)
      → ((x : A) → q (if p x then f x else x) ≡ false)
      → (xs : List A) → find q (update_where p f xs) ≡ none
  unfolding find update_where
  find-update_where-none p q f h [] = refl
  find-update_where-none p q f h (x ∷ xs) = rw (h x, find-update_where-none p q f h xs) refl

  -- An update that does not touch the rows of a search does not change what it finds.
  pub find-update_where_other :
      (p q : A → Bool) (f : A → A)
      → ((x : A) → p x ≡ true → (q x ≡ false) × (q (f x) ≡ false))
      → (xs : List A) → find q (update_where p f xs) ≡ find q xs
  unfolding find update_where
  find-update_where_other p q f h [] = refl
  find-update_where_other p q f h (x ∷ xs) =
      let ih = find-update_where_other p q f h xs in
      elim (Bool-cases (p x)) [
        | inl e ↦ rw (e, (h x e).0, (h x e).1, ih) refl
        | inr e ↦ rw (e, ih) refl
      ]

  pub count-update_where_none :
      (p q : A → Bool) (f : A → A)
      → ((x : A) → q (if p x then f x else x) ≡ false)
      → (xs : List A) → count q (update_where p f xs) ≡ 0
  unfolding count update_where
  count-update_where_none p q f h [] = refl
  count-update_where_none p q f h (x ∷ xs) = rw (h x, count-update_where_none p q f h xs) refl

  -- An update takes at most the rows that it picks out of a count.
  pub count-update_where :
      (p q : A → Bool) (f : A → A) (xs : List A)
      → count q xs ≤ count q (update_where p f xs) + count p xs
  unfolding count update_where
  count-update_where p q f [] = ground arith
  count-update_where p q f (x ∷ xs) = let ih = count-update_where p q f xs in ground arith

  pub count-delete_where : (p : A → Bool) (xs : List A) → count p (delete_where p xs) ≡ 0
  unfolding count delete_where
  count-delete_where p [] = refl
  count-delete_where p (x ∷ xs) =
      let ih = count-delete_where p xs in
      elim (Bool-cases (p x)) [ inl e ↦ rw (e, ih) refl | inr e ↦ rw (e, e, ih) refl ]

  -- A search for rows that an update brings about finds the first of them, updated.
  pub find-update_where_hit :
      (p : A → Bool) (f : A → A)
      → ((x : A) → p x ≡ true → p (f x) ≡ true)
      → (xs : List A) → exists p xs ≡ true
      → (x : A) × (p x ≡ true) × (find p (update_where p f xs) ≡ some (f x))
  unfolding find update_where exists
  find-update_where_hit p f h [] e = cc
  find-update_where_hit p f h (x ∷ xs) e =
      let ih = find-update_where_hit p f h xs in
      elim (Bool-cases (p x)) [
        | inl q ↦ (x, q, rw (q, h x q) refl)
        | inr q ↦
            let more : exists p xs ≡ true = ground arith in
            let (y, py, found) = ih more in (y, py, rw (q, q) found)
      ]

  -- A row that was found is found again after an update of it that the test does not mind.
  pub find-update_where_same :
      (p : A → Bool) (f : A → A)
      → ((x : A) → p x ≡ true → p (f x) ≡ true)
      → (xs : List A) (x : A) → find p xs ≡ some x
      → find p (update_where p f xs) ≡ some (f x)
  unfolding find update_where
  find-update_where_same p f h [] x e = cc
  find-update_where_same p f h (y ∷ ys) x e = elim (Bool-cases (p y)) [
    | inl q ↦ let same : some y ≡ some x = rw q at e in rw (q, h y q) (ground arith)
    | inr q ↦ rw (q, q) (find-update_where_same p f h ys x (rw q at e))
  ]

  -- Deletions of other rows do not change what is found.
  pub find-delete_where_other :
      (p q : A → Bool)
      → ((x : A) → p x ≡ true → q x ≡ false)
      → (xs : List A) → find p (delete_where q xs) ≡ find p xs
  unfolding find delete_where
  find-delete_where_other p q h [] = refl
  find-delete_where_other p q h (x ∷ xs) =
      let ih = find-delete_where_other p q h xs in
      elim (Bool-cases (p x)) [
        | inl e ↦ rw (h x e, e) refl
        | inr e ↦ elim (Bool-cases (q x)) [ inl f ↦ rw (f, e) ih | inr f ↦ rw (f, e) ih ]
      ]

-- What holds of all rows holds of them in another order.
module _ {ℓ} {A : Type ℓ} (key : A → Text) (P : A → Type 0) where
  insert_by-All : (x : A) (xs : List A) → P x → All P xs → All P (insert_by key x xs)
  unfolding insert_by
  insert_by-All x [] h hs = (h, tt)
  insert_by-All x (y ∷ ys) h hs =
      let rest = insert_by-All x ys h hs.1 in
      elim (Bool-cases (before (key x) (key y))) [
        | inl e ↦ rw e (h, hs)
        | inr e ↦ rw e (hs.0, rest)
      ]

  pub order_by-All : (xs : List A) → All P xs → All P (order_by key xs)
  unfolding order_by
  order_by-All [] hs = tt
  order_by-All (x ∷ xs) hs = insert_by-All x (order_by key xs) hs.0 (order_by-All xs hs.1)
