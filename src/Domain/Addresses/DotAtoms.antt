-- ===== src/Domain/Addresses/DotAtoms.antt =====
-- Which local parts `ValidateLocalPart` accepts.
use selfu.Base.{
  ℕ, ◌≤◌, ◌≡◌, ◌≢◌, ◌⊎◌, ◌↔◌, inl, inr, refl, Bool, true, false, not, ◌&&◌, ◌||◌, List, [], ◌∷◌,
  arith, Text, text, ◌==◌, eqb, eqb_iff, ltb, length, is_empty, All, Bool-cases, if◌then◌else◌,
  Checked, ok, ◌>>◌, reject_if, trim_space, has_prefix, has_suffix, contains, split, split-ne-nil,
  cons_head,
}
use selfu.Domain.Addresses.{is_atom_byte, all_atom_bytes, dots_misplaced, validate_local_part}

-- No dot after a dot, nor at the front if `after` holds, nor at the end.
abbrev NoGap : Bool → Text → Type 0
NoGap after [] = after ≡ false
NoGap after (c ∷ s) = ((c ≡ b'.') × (after ≡ false) × NoGap true s) ⊎ ((c ≢ b'.') × NoGap false s)

abbrev NoneEmpty : List Text → Type 0
NoneEmpty parts = All (λ p. p ≢ []) parts

-- All parts but the first.
abbrev Later : Bool → List Text → Type 0
Later after [] = ⊥
Later true (p ∷ ps) = (p ≢ []) × NoneEmpty ps
Later false (p ∷ ps) = NoneEmpty ps

Later-cons_head :
    (after : Bool) (c : ℕ) (ps : List Text) → Later false ps → Later after (cons_head c ps)
Later-cons_head after c [] h = absurd h
Later-cons_head true c (p ∷ ps) h = (λ e. cc, h)
Later-cons_head false c (p ∷ ps) h = h

Later-of_cons_head :
    (after : Bool) (c : ℕ) (ps : List Text)
    → ps ≢ []
    → Later after (cons_head c ps)
    → Later false ps
Later-of_cons_head after c [] ne h = absurd (ne refl)
Later-of_cons_head true c (p ∷ ps) ne h = h.1
Later-of_cons_head false c (p ∷ ps) ne h = h

Later-true : (ps : List Text) → ps ≢ [] → Later true ps ↔ NoneEmpty ps
Later-true [] ne = absurd (ne refl)
Later-true (p ∷ ps) ne = (λ h. h, λ h. h)

NoGap-dot :
    (after : Bool) (c : ℕ) (s : Text)
    → eqb c b'.' ≡ true
    → NoGap after (c ∷ s)
    → (after ≡ false) × NoGap true s
NoGap-dot after c s e (inl (d, f, h)) = (f, h)
NoGap-dot after c s e (inr (d, h)) = absurd (d ((eqb_iff c b'.').0 e))

NoGap-other :
    (after : Bool) (c : ℕ) (s : Text) → eqb c b'.' ≡ false → NoGap after (c ∷ s) → NoGap false s
NoGap-other after c s e (inl (d, f, h)) = absurd (ground arith)
NoGap-other after c s e (inr (d, h)) = h

-- The parts between the dots are non-empty exactly if no dot is misplaced.
NoGap-iff_parts : (after : Bool) (s : Text) → NoGap after s ↔ Later after (split b'.' s)
unfolding split
NoGap-iff_parts true [] = (λ h. cc, λ h. absurd (h.0 refl))
NoGap-iff_parts false [] = (λ h. tt, λ h. refl)
NoGap-iff_parts after (c ∷ s) =
    go (Bool-cases (eqb c b'.')) after (split b'.' s) (split-ne-nil b'.' s) (NoGap-iff_parts true s)
      (NoGap-iff_parts false s)
  where
    go :
        (eqb c b'.' ≡ true) ⊎ (eqb c b'.' ≡ false)
        → (after : Bool) (parts : List Text) → parts ≢ []
        → NoGap true s ↔ Later true parts
        → NoGap false s ↔ Later false parts
        → NoGap after (c ∷ s) ↔ Later after (if eqb c b'.' then [] ∷ parts else cons_head c parts)
    go (inl e) true parts ne ih jh =
        rw e (λ h. absurd (let k = (NoGap-dot true c s e h).0 in cc), λ h. absurd (h.0 refl))
    go (inl e) false parts ne ih jh = rw e (
      λ h. (Later-true parts ne).0 (ih.0 (NoGap-dot false c s e h).1),
      λ h. inl ((eqb_iff c b'.').0 e, refl, ih.1 ((Later-true parts ne).1 h)),
    )
    go (inr e) after parts ne ih jh = rw e (
      λ h. Later-cons_head after c parts (jh.0 (NoGap-other after c s e h)),
      λ h. inr (λ q. ground arith, jh.1 (Later-of_cons_head after c parts ne h)),
    )

abbrev Good : Text → Type 0
Good s = (has_suffix s (text ".") || contains s (text "..")) ≡ false

Good-cons : (c d : ℕ) (s : Text) → Good (c ∷ d ∷ s) ↔ ((¬ ((c ≡ b'.') × (d ≡ b'.'))) × Good (d ∷ s))
unfolding has_suffix contains has_prefix ◌==◌
Good-cons c d s = ground arith

NoGap-cons :
    (c d : ℕ) (s : Text)
    → NoGap false (c ∷ d ∷ s) ↔ ((¬ ((c ≡ b'.') × (d ≡ b'.'))) × NoGap false (d ∷ s))
NoGap-cons c d s = (to, from (Bool-cases (eqb c b'.')))
  where
    to : NoGap false (c ∷ d ∷ s) → (¬ ((c ≡ b'.') × (d ≡ b'.'))) × NoGap false (d ∷ s)
    to (inl (e, f, inl (k, g, h))) = absurd (cc)
    to (inl (e, f, inr (k, h))) = (λ q. k q.1, inr (k, h))
    to (inr (e, k)) = (λ q. e q.0, k)

    from :
        (eqb c b'.' ≡ true) ⊎ (eqb c b'.' ≡ false)
        → (¬ ((c ≡ b'.') × (d ≡ b'.'))) × NoGap false (d ∷ s)
        → NoGap false (c ∷ d ∷ s)
    from (inl e) (both, inl (k, f, h)) = absurd (both ((eqb_iff c b'.').0 e, k))
    from (inl e) (both, inr (k, h)) = inl ((eqb_iff c b'.').0 e, refl, inr (k, h))
    from (inr e) (both, h) = inr (λ q. ground arith, h)

NoGap-iff_Good : (s : Text) → NoGap false s ↔ Good s
NoGap-iff_Good [] = unfold has_suffix contains has_prefix ◌==◌ in (λ _. refl, λ _. refl)
NoGap-iff_Good (c ∷ []) = unfold has_suffix contains has_prefix ◌==◌ in ground arith
NoGap-iff_Good (c ∷ d ∷ s) =
    let ih = NoGap-iff_Good (d ∷ s) in
    (
      λ h. let (a, b) = (NoGap-cons c d s).0 h in (Good-cons c d s).1 (a, ih.0 b),
      λ h. let (a, b) = (Good-cons c d s).0 h in (NoGap-cons c d s).1 (a, ih.1 b),
    )

dots_iff : (c : ℕ) (s : Text) → (dots_misplaced (c ∷ s) ≡ false) ↔ NoGap true (c ∷ s)
unfolding dots_misplaced has_prefix
dots_iff c s = (to (Bool-cases (eqb c b'.')), from)
  where
    to :
        (eqb c b'.' ≡ true) ⊎ (eqb c b'.' ≡ false)
        → dots_misplaced (c ∷ s) ≡ false
        → NoGap true (c ∷ s)
    to (inl e) h = cc (rw e at h)
    to (inr e) h =
        inr (λ q. ground arith, NoGap-other false c s e ((NoGap-iff_Good (c ∷ s)).1 (rw e at h)))

    from : NoGap true (c ∷ s) → dots_misplaced (c ∷ s) ≡ false
    from (inl (e, f, h)) = cc
    from (inr (k, h)) =
        let e : eqb c b'.' ≡ false = ground arith in rw e ((NoGap-iff_Good (c ∷ s)).0 (inr (k, h)))

abbrev pub IsAtomByte : ℕ → Type 0
IsAtomByte c =
    ((b'a' ≤ c) × (c ≤ b'z'))
    ⊎ ((b'A' ≤ c) × (c ≤ b'Z'))
    ⊎ ((b'0' ≤ c) × (c ≤ b'9'))
    ⊎ (c ≡ b'_')
    ⊎ (c ≡ b'-')
    ⊎ (c ≡ b'+')

-- A dot-atom of at most 64 bytes: non-empty atoms of letters, digits, "_", "-" and "+" with single
-- dots between them.
abbrev pub IsDotAtom : Text → Type 0
IsDotAtom s = (length s ≤ 64) × All (λ atom. (atom ≢ []) × All IsAtomByte atom) (split b'.' s)

is_atom_byte_iff : (c : ℕ) → (is_atom_byte c ≡ true) ↔ (IsAtomByte c ⊎ (c ≡ b'.'))
unfolding is_atom_byte
is_atom_byte_iff c = ground arith

bytes_iff : (s : Text) → (all_atom_bytes s ≡ true) ↔ All (All IsAtomByte) (split b'.' s)
unfolding all_atom_bytes split
bytes_iff [] = (λ _. (tt, tt), λ _. refl)
bytes_iff (c ∷ s) = go (Bool-cases (eqb c b'.')) (split b'.' s) (split-ne-nil b'.' s) (bytes_iff s)
  where
    whole :
        is_atom_byte c ≡ true
        → all_atom_bytes s ≡ true
        → (is_atom_byte c && all_atom_bytes s) ≡ true
    whole h k = rw (h, k)

    go :
        (eqb c b'.' ≡ true) ⊎ (eqb c b'.' ≡ false)
        → (parts : List Text) → parts ≢ []
        → (all_atom_bytes s ≡ true) ↔ All (All IsAtomByte) parts
        → ((is_atom_byte c && all_atom_bytes s) ≡ true)
          ↔ All (All IsAtomByte) (if eqb c b'.' then [] ∷ parts else cons_head c parts)
    go e [] ne ih = absurd (ne refl)
    go (inl e) (p ∷ ps) ne ih = rw e (
      λ h. (tt, ih.0 (ground arith)),
      λ h. whole ((is_atom_byte_iff c).1 (inr ((eqb_iff c b'.').0 e))) (ih.1 h.1),
    )
    go (inr e) (p ∷ ps) ne ih = rw e (
      λ h.
          let k = ih.0 (ground arith) in ((atom ((is_atom_byte_iff c).0 (ground arith)), k.0), k.1),
      λ h. whole ((is_atom_byte_iff c).1 (inl h.0.0)) (ih.1 (h.0.1, h.1)),
    )
      where
        atom : IsAtomByte c ⊎ (c ≡ b'.') → IsAtomByte c
        atom (inl a) = a
        atom (inr q) = absurd (ground arith)

All-both :
    (ps : List Text)
    → All (λ p. (p ≢ []) × All IsAtomByte p) ps ↔ (NoneEmpty ps × All (All IsAtomByte) ps)
All-both [] = (λ _. (tt, tt), λ _. tt)
All-both (p ∷ ps) =
    let ih = All-both ps in
    (
      λ h. let (a, b) = ih.0 h.1 in ((h.0.0, a), (h.0.1, b)),
      λ (a, b). ((a.0, b.0), ih.1 (a.1, b.1)),
    )

parts_iff :
    (c : ℕ) (s : Text)
    → ((all_atom_bytes (c ∷ s) ≡ true) × (dots_misplaced (c ∷ s) ≡ false))
      ↔ All (λ p. (p ≢ []) × All IsAtomByte p) (split b'.' (c ∷ s))
parts_iff c s =
    let t = c ∷ s in
    let gaps = NoGap-iff_parts true t in
    let whole = Later-true (split b'.' t) (split-ne-nil b'.' t) in
    (
      λ (a, b).
          (All-both (split b'.' t)).1 (whole.0 (gaps.0 ((dots_iff c s).0 b)), (bytes_iff t).0 a),
      λ h.
          let (a, b) = (All-both (split b'.' t)).0 h in
          ((bytes_iff t).1 b, (dots_iff c s).1 (gaps.1 (whole.1 a))),
    )

check_trimmed : Text → Checked (Unit {0})
check_trimmed local = do
  reject_if (is_empty local) "local part is required"
  reject_if (ltb 64 (length local)) "local part too long"
  reject_if (not (all_atom_bytes local)) "invalid character in local part"
  reject_if (dots_misplaced local) "local part must not start/end with or contain consecutive dots"

check_trimmed_iff : (t : Text) → (check_trimmed t ≡ ok tt) ↔ IsDotAtom t
unfolding check_trimmed split
check_trimmed_iff [] = (λ h. absurd (cc), λ h. absurd (h.1.0.0 refl))
check_trimmed_iff (c ∷ s) = (
  λ h. (ground arith, (parts_iff c s).0 (ground arith, ground arith)),
  λ (short, parts).
      let (bytes, dots) = (parts_iff c s).1 parts in
      let fits : ltb 64 (length (c ∷ s)) ≡ false = ground arith in rw (fits, bytes, dots),
)

-- A local part is accepted exactly if it is a dot-atom once surrounding space is removed.
pub validate_local_part_iff :
    (local : Text) → (validate_local_part local ≡ ok tt) ↔ IsDotAtom (trim_space local)
unfolding validate_local_part check_trimmed
validate_local_part_iff local = check_trimmed_iff (trim_space local)
