-- ===== src/Domain/Names/Hostnames.antt =====
-- What `NormalizeDomain` accepts and returns.
use selfu.Base.{
  ℕ, zero, suc, ◌+◌, ◌-◌, ◌≤◌, ◌<◌, ◌≡◌, ◌≢◌, ◌⊎◌, ◌↔◌, inl, inr, refl, false, List, [], ◌∷◌, some,
  arith, Text, text, ltb, length, get_elem?, is_empty, All, All-of_get, trim_suffix_of_parts,
  All-imp, Bool-cases, Checked, ok, err, Checked-cases, String, >>=-eq-ok, is_space, lower_byte,
  to_lower, to_lower_none, to_lower_idem, trim_space, trim_space_none, trim_suffix, split,
  split-All,
}
use selfu.Domain.Names.{check_bytes, check_label, check_labels, normalize_domain}

abbrev pub IsAlnum : ℕ → Type 0
IsAlnum c = ((b'a' ≤ c) × (c ≤ b'z')) ⊎ ((b'0' ≤ c) × (c ≤ b'9'))

-- The byte `c` may stand at position `k` of a label of `n` bytes.
abbrev pub Fits : ℕ → ℕ → ℕ → Type 0
Fits n k c = IsAlnum c ⊎ ((c ≡ b'-') × (0 < k) × (k < n - 1))

-- A label of letters, digits and inner hyphens, of 1 to 63 bytes.
abbrev pub IsLabel : Text → Type 0
IsLabel l = (l ≢ []) × (length l ≤ 63) × ((k c : ℕ) → get_elem? l k ≡ some c → Fits (length l) k c)

check_bytes_here :
    (n i c : ℕ) (s : Text)
    → i + suc (length s) ≡ n
    → check_bytes n i (c ∷ s) ≡ ok tt
    → Fits n i c × (check_bytes n (i + 1) s ≡ ok tt)
unfolding check_bytes
check_bytes_here n i c s e h = ground arith

check_bytes_cons :
    (n i c : ℕ) (s : Text)
    → Fits n i c
    → check_bytes n (i + 1) s ≡ ok tt
    → check_bytes n i (c ∷ s) ≡ ok tt
unfolding check_bytes
check_bytes_cons n i c s f h = ground arith

check_bytes_sound :
    (n i : ℕ) (s : Text)
    → i + length s ≡ n
    → check_bytes n i s ≡ ok tt
    → (j c : ℕ) → get_elem? s j ≡ some c
    → Fits n (i + j) c
check_bytes_sound n i [] e h j c g = cc
check_bytes_sound n i (d ∷ s) e h zero c g =
    let f = (check_bytes_here n i d s e h).0 in ground (arith, f)
check_bytes_sound n i (d ∷ s) e h (suc j) c g =
    let f = check_bytes_sound n (i + 1) s (omega arith) (check_bytes_here n i d s e h).1 j c g in
    ground (arith, f)

check_bytes_complete :
    (n i : ℕ) (s : Text)
    → ((j c : ℕ) → get_elem? s j ≡ some c → Fits n (i + j) c)
    → check_bytes n i s ≡ ok tt
check_bytes_complete n i [] f = unfold check_bytes in refl
check_bytes_complete n i (d ∷ s) f =
    check_bytes_cons n i d s (let g = f 0 d refl in ground (arith, g))
      (check_bytes_complete n (i + 1) s (λ j c g. let q = f (suc j) c g in ground (arith, q)))

check_label_parts :
    (l : Text)
    → check_label l ≡ ok tt
    → (l ≢ []) × (length l ≤ 63) × (check_bytes (length l) 0 l ≡ ok tt)
unfolding check_label
check_label_parts [] h = cc
check_label_parts (c ∷ s) h = elim (Bool-cases (ltb 63 (length (c ∷ s)))) [
  | inl long ↦ cc (rw long at h)
  | inr short ↦ (λ e. cc, ground arith, rw short at h)
]

check_label_of_parts :
    (l : Text) → l ≢ [] → length l ≤ 63 → check_bytes (length l) 0 l ≡ ok tt → check_label l ≡ ok tt
unfolding check_label
check_label_of_parts [] ne short h = absurd (ne refl)
check_label_of_parts (c ∷ s) ne short h =
    let e : ltb 63 (length (c ∷ s)) ≡ false = ground arith in rw e h

check_label_iff : (l : Text) → (check_label l ≡ ok tt) ↔ IsLabel l
check_label_iff l = (
  λ h.
      let (ne, short, bytes) = check_label_parts l h in
      (
        ne,
        short,
        λ k c g.
            let q = check_bytes_sound (length l) 0 l (omega arith) bytes k c g in ground (arith, q),
      ),
  λ (ne, short, fits).
      check_label_of_parts l ne short
        (check_bytes_complete (length l) 0 l (λ j c g. let q = fits j c g in ground (arith, q))),
)

check_labels-cons :
    (l : Text) (ls : List Text)
    → (check_labels (l ∷ ls) ≡ ok tt) ↔ ((check_label l ≡ ok tt) × (check_labels ls ≡ ok tt))
unfolding check_labels
check_labels-cons l ls = (to, from)
  where
    to : check_labels (l ∷ ls) ≡ ok tt → (check_label l ≡ ok tt) × (check_labels ls ≡ ok tt)
    to h =
        let (u, here, later) = >>=-eq-ok (check_label l) (λ _. check_labels ls) h in (here, later)

    from : (check_label l ≡ ok tt) × (check_labels ls ≡ ok tt) → check_labels (l ∷ ls) ≡ ok tt
    from (here, later) = rw here later

check_labels_iff : (ls : List Text) → (check_labels ls ≡ ok tt) ↔ All IsLabel ls
check_labels_iff [] = (λ _. tt, λ _. unfold check_labels in refl)
check_labels_iff (l ∷ ls) = (
  λ h.
      let (here, later) = (check_labels-cons l ls).0 h in
      ((check_label_iff l).0 here, (check_labels_iff ls).0 later),
  λ (here, later).
      (check_labels-cons l ls).1 ((check_label_iff l).1 here, (check_labels_iff ls).1 later),
)

-- A name of one or more labels.
abbrev pub IsHostname : Text → Type 0
IsHostname d = All IsLabel (split b'.' d)

module _ (to_ascii : Text → Checked Text) where
  normalize_domain-parts :
      (s d : Text)
      → normalize_domain to_ascii s ≡ ok d
      → (a : Text) × (to_ascii (trim_suffix (trim_space s) (text ".")) ≡ ok a)
        × (d ≡ to_lower a)
        × (check_labels (split b'.' d) ≡ ok tt)
  unfolding normalize_domain
  normalize_domain-parts s d h =
      go (Checked-cases (to_ascii (trim_suffix (trim_space s) (text "."))))
    where
      go :
          ((a : Text) × (to_ascii (trim_suffix (trim_space s) (text ".")) ≡ ok a))
            ⊎ ((m : String) × (to_ascii (trim_suffix (trim_space s) (text ".")) ≡ err m))
          → (a : Text) × (to_ascii (trim_suffix (trim_space s) (text ".")) ≡ ok a)
            × (d ≡ to_lower a)
            × (check_labels (split b'.' d) ≡ ok tt)
      go (inl (a, e)) = (a, e, ground arith, ground arith)
      go (inr (m, e)) = ground arith

  -- A name that is accepted comes out as one or more labels of 1 to 63 letters, digits and inner
  -- hyphens, in lower case.
  pub normalize_domain-IsHostname :
      (s d : Text) → normalize_domain to_ascii s ≡ ok d → IsHostname d × (to_lower d ≡ d)
  normalize_domain-IsHostname s d h =
      let (a, e, lower, checked) = normalize_domain-parts s d h in
      ((check_labels_iff (split b'.' d)).0 checked, rw lower (to_lower_idem a))

abbrev HostByte : ℕ → Type 0
HostByte c = (is_space c ≡ false) × (lower_byte c ≡ c)

IsLabel-bytes : (l : Text) → IsLabel l → All HostByte l
unfolding is_space lower_byte
IsLabel-bytes l (ne, short, fits) =
    All-of_get l (λ i c e. let f = fits i c e in (ground arith, ground arith))

IsHostname-bytes : (d : Text) → IsHostname d → All HostByte d
unfolding is_space lower_byte
IsHostname-bytes d h =
    split-All HostByte b'.' d (ground arith, ground arith)
      (All-imp (λ l k. IsLabel-bytes l k) (split b'.' d) h)

IsHostname-ne_nil : (d : Text) → IsHostname d → is_empty d ≡ false
unfolding split
IsHostname-ne_nil [] h = absurd (h.0.0 refl)
IsHostname-ne_nil (c ∷ s) h = refl

-- A name of at most 253 bytes that is made of such labels, and that the conversion to ASCII leaves
-- alone, is accepted and comes out unchanged.
pub normalize_domain-of_IsHostname :
    (to_ascii : Text → Checked Text) (d : Text)
    → IsHostname d
    → length d ≤ 253
    → to_ascii d ≡ ok d
    → normalize_domain to_ascii d ≡ ok d
unfolding normalize_domain
normalize_domain-of_IsHostname to_ascii d h short same =
    rw (spaces, dots, IsHostname-ne_nil d h, fits, same, lower, labels) refl
  where
    bytes : All HostByte d
    bytes = IsHostname-bytes d h

    spaces : trim_space d ≡ d
    spaces = trim_space_none d (All-imp {P = HostByte} (λ c k. k.0) d bytes)

    dots : trim_suffix d (text ".") ≡ d
    dots = trim_suffix_of_parts b'.' d (All-imp {P = IsLabel} (λ l k. k.0) (split b'.' d) h)

    fits : ltb 253 (length d) ≡ false
    fits = ground arith

    lower : to_lower d ≡ d
    lower = to_lower_none d (All-imp {P = HostByte} (λ c k. k.1) d bytes)

    labels : check_labels (split b'.' d) ≡ ok tt
    labels = (check_labels_iff (split b'.' d)).1 h
