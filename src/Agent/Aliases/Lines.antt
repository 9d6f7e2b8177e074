-- ===== src/Agent/Aliases/Lines.antt =====
-- How an aliases file reads: the lines, and the destinations of a name. This is the abstract view of
-- the file, in which the name of an alias has at most one value, the one of the first line for it.
use selfu.Base.{
  ◌≡◌, sym, ◌∙◌, inl, inr, refl, true, false, Option, none, some, List, [], ◌∷◌, Text, ◌==◌, ==_iff,
  ==_refl, if◌then◌else◌, is_empty, is_empty-eq_true, trim_space, to_lower, cut, Bool-cases, arith,
  trim_space_idem,
}
use selfu.Agent.Aliases.{equal_fold, is_key, kept_lines}

-- What stands after the colon
abbrev pub value_of : Option (Text × Text) → Option Text
value_of none = none
value_of (some (key, rest)) = some (trim_space rest)

-- The destinations that the lines give to the name `k`
unfoldable pub lines_view : List Text → Text → Option Text
unfolding is_key trim_space
lines_view [] k = none
lines_view (ln ∷ lines) k =
    let rest = lines_view lines k in
    let entry = cut b':' (trim_space ln) in if is_key k entry then value_of entry else rest

-- Names that are equal but for their case are keys of the same lines.
is_key-equal_fold :
    (k local : Text) (entry : Option (Text × Text))
    → equal_fold k local ≡ true
    → is_key k entry ≡ is_key local entry
unfolding is_key equal_fold
is_key-equal_fold k local none same = refl
is_key-equal_fold k local (some (key, rest)) same =
    rw ((==_iff (to_lower k) (to_lower local)).0 same) refl

not_same : (s t : Text) → t == s ≡ false → s == t ≡ false
not_same s t h = elim (Bool-cases (s == t)) [
  | inl e ↦
      let again : t == t ≡ false = rw ((==_iff s t).0 e) at h in
      absurd (ground (arith, again, ==_refl t))
  | inr e ↦ e
]

pub equal_fold_sym : (s t : Text) → equal_fold s t ≡ equal_fold t s
unfolding equal_fold
equal_fold_sym s t = elim (Bool-cases (to_lower s == to_lower t)) [
  | inl e ↦ rw ((==_iff (to_lower s) (to_lower t)).0 e) refl
  | inr e ↦ e ∙ sym (not_same (to_lower t) (to_lower s) e)
]

-- A line names no two names that differ by more than case.
is_key-other :
    (k local : Text) (entry : Option (Text × Text))
    → equal_fold k local ≡ false
    → is_key local entry ≡ true
    → is_key k entry ≡ false
unfolding is_key equal_fold
is_key-other k local none other h = refl
is_key-other k local (some (key, rest)) other h =
    rw ((==_iff (to_lower (trim_space key)) (to_lower local)).0 h)
      (not_same (to_lower local) (to_lower k) other)

-- The kept lines give every other name what the lines gave it, and the name itself nothing.
pub lines_view-kept_lines :
    (local k : Text) (lines : List Text)
    → lines_view (kept_lines local lines) k
      ≡ (if equal_fold k local then none else lines_view lines k)
unfolding lines_view kept_lines cut
lines_view-kept_lines local k [] = elim (Bool-cases (equal_fold k local)) [
  | inl f ↦ rw f refl
  | inr f ↦ rw f refl
]
lines_view-kept_lines local k (ln ∷ lines) =
    let ih = lines_view-kept_lines local k lines in
    let entry = cut b':' (trim_space ln) in
    elim (Bool-cases (is_empty (trim_space ln))) [
      | inl e ↦ rw (e, is_empty-eq_true (trim_space ln) e) ih
      | inr e ↦ elim (Bool-cases (is_key local entry)) [
        | inl own ↦ elim (Bool-cases (equal_fold k local)) [
          | inl f ↦ rw (e, own, f) (rw f at ih)
          | inr f ↦ rw (e, own, f, is_key-other k local entry f own) (rw f at ih)
        ]
        | inr own ↦ elim (Bool-cases (equal_fold k local)) [
          | inl f ↦
              rw (e, own, f, trim_space_idem ln, is_key-equal_fold k local entry f, own)
                (rw f at ih)
          | inr f ↦ elim (Bool-cases (is_key k entry)) [
            | inl key ↦ rw (e, own, f, trim_space_idem ln, key) refl
            | inr key ↦ rw (e, own, f, trim_space_idem ln, key) (rw f at ih)
          ]
        ]
      ]
    ]
