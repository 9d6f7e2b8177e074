-- ===== src/Agent/Aliases/Solid.antt =====
-- Texts that come back unchanged when a line is trimmed: words, and words with separators between.
use selfu.Base.{
  ℕ, ◌≡◌, ◌≢◌, ap, ◌∙◌, refl, false, List, [], ◌∷◌, ◌++◌, Text, text, is_empty, is_space, trim_left,
  trim_right, trim_space, trim_left_none, trim_right_none, join, All, All-append, All-imp, arith,
  trim_right-append, is_empty-append,
}

-- A text that is not empty and has no white space
abbrev pub IsWord : Text → Type 0
IsWord s = (is_empty s ≡ false) × All (λ c. is_space c ≡ false) s

-- A text that trimming leaves as it is, with something in it and no end of line
unfoldable pub IsSolid : Text → Type 0
IsSolid t =
    (is_empty t ≡ false)
    × (trim_left is_space t ≡ t)
    × (trim_right is_space t ≡ t)
    × All (λ c. c ≢ b'\n') t

word-trim_left : (s t : Text) → IsWord s → trim_left is_space (s ++ t) ≡ s ++ t
unfolding trim_left
word-trim_left [] t h = ground (arith, h.0)
word-trim_left (c ∷ s) t h = rw h.1.0 refl

not_end : (c : ℕ) → is_space c ≡ false → c ≢ b'\n'
unfolding is_space
not_end c h = ground arith

unbroken : (s : Text) → All (λ c. is_space c ≡ false) s → All (λ c. c ≢ b'\n') s
unbroken s h = All-imp not_end s h

IsSolid-word : (s : Text) → IsWord s → IsSolid s
unfolding IsSolid
IsSolid-word s h =
    (h.0, trim_left_none is_space s h.1, trim_right_none is_space s h.1, unbroken s h.1)

-- A word, a separator and a solid text make a solid text.
pub IsSolid-append :
    (s sep t : Text) → IsWord s → All (λ c. c ≢ b'\n') sep → IsSolid t → IsSolid (s ++ (sep ++ t))
unfolding IsSolid
IsSolid-append s sep t word plain (full, left, right, ends) =
    let inner : trim_right is_space (sep ++ t) ≡ sep ++ t =
      trim_right-append is_space sep t (rw right full) ∙ ap (λ u. sep ++ u) right in
    let used = is_empty-append sep t full in
    (
      is_empty-append s (sep ++ t) used,
      word-trim_left s (sep ++ t) word,
      trim_right-append is_space s (sep ++ t) (rw inner used) ∙ ap (λ u. s ++ u) inner,
      All-append (λ c. c ≢ b'\n') s (sep ++ t) (unbroken s word.1)
          (All-append (λ c. c ≢ b'\n') sep t plain ends),
    )

pub IsSolid-join :
    (x : Text) (xs : List Text) → All IsWord (x ∷ xs) → IsSolid (join (text ", ") (x ∷ xs))
unfolding join
IsSolid-join x [] h = IsSolid-word x h.0
IsSolid-join x (y ∷ ys) h =
    IsSolid-append x (text ", ") (join (text ", ") (y ∷ ys)) h.0
      (λ e. ground arith, (λ e. ground arith, tt)) (IsSolid-join y ys h.1)

pub trim_space-solid : (t : Text) → IsSolid t → trim_space t ≡ t
unfolding trim_space IsSolid
trim_space-solid t (full, left, right, ends) = rw left right

pub trim_space-indented : (t : Text) → IsSolid t → trim_space (b' ' ∷ t) ≡ t
unfolding trim_space IsSolid trim_left is_space
trim_space-indented t (full, left, right, ends) = rw left right
