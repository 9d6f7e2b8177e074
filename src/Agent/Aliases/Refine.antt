-- ===== src/Agent/Aliases/Refine.antt =====
-- `setAlias` updates one name of the aliases of a domain, and keeps all others.
use selfu.Base.{
  ◌+◌, ◌≡◌, ◌≢◌, ap, ◌∙◌, inl, inr, refl, true, false, Option, none, some, List, [], ◌∷◌, ◌++◌,
  Text, text, if◌then◌else◌, is_empty, trim_left, trim_right, trim_space, trim_space_none, split,
  split-append, split_none, split-free, cut, cut_first, join, All, All-append, Bool-cases,
  Option-cases, arith, trim_space-All, append_assoc,
}
use selfu.Agent.{Host, Disk, read_file}
use selfu.Agent.Contents.{content_of, read_file-content, write_file-content}
use selfu.Agent.Aliases.{
  equal_fold, is_key, kept_lines, alias_line, alias_file, aliases_path, set_alias,
}
use selfu.Agent.Aliases.Solid.{
  IsWord, IsSolid, IsSolid-append, IsSolid-join, trim_space-solid, trim_space-indented,
}
use selfu.Agent.Aliases.Lines.{lines_view, lines_view-kept_lines, equal_fold_sym}

-- The first of two
abbrev pub or_else : Option Text → Option Text → Option Text
or_else none other = other
or_else (some v) other = some v

or_else-none : (v : Option Text) → or_else v none ≡ v
or_else-none none = refl
or_else-none (some v) = refl

lines_view-append :
    (xs ys : List Text) (k : Text)
    → lines_view (xs ++ ys) k ≡ or_else (lines_view xs k) (lines_view ys k)
unfolding lines_view is_key
lines_view-append [] ys k = refl
lines_view-append (ln ∷ xs) ys k =
    let ih = lines_view-append xs ys k in
    elim (Option-cases (cut b':' (trim_space ln))) [
      | inl e ↦ rw e ih
      | inr ((key, v), e) ↦ elim (Bool-cases (equal_fold (trim_space key) k)) [
        | inl f ↦ rw (e, f) refl
        | inr f ↦ rw (e, f) ih
      ]
    ]

-- Written to a file and read back, the lines are the same.
lines_view-file :
    (lines : List Text) (k : Text)
    → All (All (λ c. c ≢ b'\n')) lines
    → lines_view (split b'\n' (join (text "\n") lines ++ text "\n")) k ≡ lines_view lines k
unfolding join lines_view is_key cut trim_space split trim_left trim_right
lines_view-file [] k h = refl
lines_view-file (p ∷ []) k h = rw (split-append b'\n' p [], split_none b'\n' p h.0) refl
lines_view-file (p ∷ q ∷ rest) k h =
    let ih = lines_view-file (q ∷ rest) k h.1 in
    let more = join (text "\n") (q ∷ rest) in
    rw
      (
        append_assoc p (text "\n" ++ more) (text "\n"),
        split-append b'\n' p (more ++ text "\n"),
        split_none b'\n' p h.0,
        ih,
      )
      refl

kept_lines-free :
    (local : Text) (lines : List Text)
    → All (All (λ c. c ≢ b'\n')) lines
    → All (All (λ c. c ≢ b'\n')) (kept_lines local lines)
unfolding kept_lines
kept_lines-free local [] h = tt
kept_lines-free local (ln ∷ lines) h = elim (Bool-cases (is_empty (trim_space ln))) [
  | inl e ↦ rw e (kept_lines-free local lines h.1)
  | inr e ↦ elim (Bool-cases (is_key local (cut b':' (trim_space ln)))) [
    | inl f ↦ rw (e, f) (kept_lines-free local lines h.1)
    | inr f ↦ rw (e, f) (trim_space-All (λ c. c ≢ b'\n') ln h.0, kept_lines-free local lines h.1)
  ]
]

-- What the program expects of a request: the name is a word without a colon, and the destinations
-- are words.
pub record IsPlain (local : Text) (destinations : List Text) : Type 0 where
  pub word : IsWord local
  pub no_colon : All (λ c. c ≢ b':') local
  pub words : All IsWord destinations

-- The value that an alias gets
unfoldable pub joined : List Text → Option Text
joined [] = none
joined (x ∷ xs) = some (join (text ", ") (x ∷ xs))

alias_line-view :
    (local k : Text) (destinations : List Text)
    → IsPlain local destinations
    → (lines_view (alias_line local destinations) k
        ≡ (if equal_fold k local then joined destinations else none))
      × All (All (λ c. c ≢ b'\n')) (alias_line local destinations)
unfolding lines_view is_key alias_line joined
alias_line-view local k [] h =
    (elim (Bool-cases (equal_fold k local)) [ inl f ↦ rw f refl | inr f ↦ rw f refl ], tt)
alias_line-view local k (x ∷ xs) h =
    let value = join (text ", ") (x ∷ xs) in
    let solid = IsSolid-join x xs h.words in
    let line =
      IsSolid-append local (text ": ") value h.word (λ e. ground arith, (λ e. ground arith, tt))
        solid in
    (
      rw
          (
            trim_space-solid (local ++ (text ": " ++ value)) line,
            cut_first b':' local (b' ' ∷ value) h.no_colon,
            trim_space_none local h.word.1,
            equal_fold_sym local k,
            trim_space-indented value solid,
          )
          refl,
      (unfold IsSolid in line.3, tt),
    )

-- The aliases that a file, if there is one, gives
unfoldable pub file_view : Option Text → Text → Option Text
unfolding lines_view
file_view none k = none
file_view (some content) k = lines_view (split b'\n' content) k

alias_file-view :
    (local k : Text) (destinations : List Text) (old : Option Text)
    → IsPlain local destinations
    → file_view (some (alias_file local destinations old)) k
      ≡ (if equal_fold k local then joined destinations else file_view old k)
unfolding file_view alias_file
alias_file-view local k destinations none h =
    let (view, free) = alias_line-view local k destinations h in
    lines_view-file (alias_line local destinations) k free ∙ view
alias_file-view local k destinations (some content) h =
    let kept = kept_lines local (split b'\n' content) in
    let (view, free) = alias_line-view local k destinations h in
    let plain =
      All-append (All (λ c. c ≢ b'\n')) kept (alias_line local destinations)
        (kept_lines-free local (split b'\n' content) (split-free b'\n' content)) free in
    let whole =
      lines_view-file (kept ++ alias_line local destinations) k plain
      ∙ lines_view-append kept (alias_line local destinations) k in
    let rest = lines_view-kept_lines local k (split b'\n' content) in
    elim (Bool-cases (equal_fold k local)) [
      | inl f ↦ rw (whole, rest, view, f) refl
      | inr f ↦ rw (whole, rest, view, f) (or_else-none (lines_view (split b'\n' content) k))
    ]

module _ (h : Host) (domain local : Text) (destinations : List Text) (s : Disk) where
  -- Where neither the read nor the write of the file is refused, `setAlias` succeeds, and it updates
  -- the aliases of the domain as a map: the name, in whatever case, gets the destinations, or nothing
  -- if there are none, every other name keeps what it had, and no other file changes. The name is a
  -- word without a colon, and the destinations are words.
  pub set_alias-refines :
      IsPlain local destinations
      → h.refused s.calls ≡ false
      → h.refused (s.calls + 1) ≡ false
      → ((set_alias h domain local destinations s).0 ≡ true)
        × ((k : Text)
            → file_view
                (content_of (aliases_path h domain) (set_alias h domain local destinations s).1)
                k
              ≡ (if equal_fold k local
                  then joined destinations
                  else file_view (content_of (aliases_path h domain) s) k))
        × ((other : Text)
            → other ≢ aliases_path h domain
            → content_of other (set_alias h domain local destinations s).1 ≡ content_of other s)
  unfolding set_alias
  set_alias-refines plain read wrote =
      let path = aliases_path h domain in
      let old = read_file h path s in
      let next : h.refused old.1.calls ≡ false = unfold read_file in wrote in
      let (done, own, others) =
        write_file-content h path (alias_file local destinations old.0) old.1 next in
      (
        done,
        λ k.
            ap (λ v. file_view v k) own
            ∙ alias_file-view local k destinations old.0 plain
            ∙ ap (λ v. if equal_fold k local then joined destinations else file_view v k)
                (read_file-content h s path read),
        λ other ne. others other ne ∙ (unfold read_file content_of in refl),
      )
