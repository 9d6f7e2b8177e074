-- ===== src/Domain/Addresses/Parts.antt =====
-- What `BuildAddress` returns.
use selfu.Base.{
  ℕ, ◌≡◌, ◌≢◌, ◌⊎◌, ◌↔◌, inl, inr, refl, true, false, ◌&&◌, [], ◌∷◌, ◌++◌, some, arith, Text, eqb,
  is_empty, All, All-of_get, All-imp, Bool-cases, if◌then◌else◌, Checked, ok, ◌>>=◌, >>=-eq-ok,
  reject_if, trim_space, trim_left, trim_right, to_lower, lower_byte, is_space, split, split-All,
  cut,
}
use selfu.Domain.Names.{normalize_domain}
use selfu.Domain.Names.Hostnames.{IsHostname, IsLabel, normalize_domain-IsHostname}
use selfu.Domain.Addresses.{count_byte, splits_host_port, validate_local_part, build_address}
use selfu.Domain.Addresses.DotAtoms.{IsAtomByte, IsDotAtom, validate_local_part_iff}

-- A byte that no port or bracket is written with, and no "@".
abbrev Plain : ℕ → Type 0
Plain c = (c ≢ b':') × (c ≢ b'[') × (c ≢ b']') × (c ≢ b'@')

space-Plain : (c : ℕ) → is_space c ≡ true → Plain c
unfolding is_space
space-Plain c e = ground arith

trim_left-bytes : (s : Text) → All Plain (trim_left is_space s) → All Plain s
unfolding trim_left
trim_left-bytes [] h = tt
trim_left-bytes (c ∷ s) h = elim (Bool-cases (is_space c)) [
  | inl e ↦ (space-Plain c e, trim_left-bytes s (rw e at h))
  | inr e ↦ rw e at h
]

trim_right-bytes : (s : Text) → All Plain (trim_right is_space s) → All Plain s
unfolding trim_right
trim_right-bytes [] h = tt
trim_right-bytes (c ∷ s) h =
    go (trim_right is_space s) (trim_right-bytes s) (Bool-cases (is_space c)) h
  where
    go :
        (rest : Text)
        → (All Plain rest → All Plain s)
        → (is_space c ≡ true) ⊎ (is_space c ≡ false)
        → All Plain (if is_space c && is_empty rest then [] else c ∷ rest)
        → Plain c × All Plain s
    go [] ih (inl e) h = (space-Plain c e, ih tt)
    go (d ∷ rest) ih (inl e) h = let k : All Plain (c ∷ d ∷ rest) = rw e at h in (k.0, ih k.1)
    go rest ih (inr e) h = let k : All Plain (c ∷ rest) = rw e at h in (k.0, ih k.1)

trim_space-bytes : (s : Text) → All Plain (trim_space s) → All Plain s
unfolding trim_space
trim_space-bytes s h = trim_left-bytes s (trim_right-bytes (trim_left is_space s) h)

IsDotAtom-bytes : (s : Text) → IsDotAtom s → All Plain s
IsDotAtom-bytes s h = split-All Plain b'.' s (ground arith) (
    All-imp {P = λ atom. (atom ≢ []) × All IsAtomByte atom}
      (λ a k. All-imp {P = IsAtomByte} (λ c q. ground arith) a k.1) (split b'.' s) h.1)

to_lower-bytes : (s : Text) → All Plain s → All Plain (to_lower s)
unfolding to_lower lower_byte
to_lower-bytes [] h = tt
to_lower-bytes (c ∷ s) h = (ground arith, to_lower-bytes s h.1)

IsHostname-Plain : (d : Text) → IsHostname d → All Plain d
IsHostname-Plain d h = split-All Plain b'.' d (ground arith) (
    All-imp {P = IsLabel} (λ l k. All-of_get l (λ i c e. let f = k.2 i c e in ground arith))
      (split b'.' d) h)

count_byte-Plain : (s : Text) → All Plain s → count_byte b':' s ≡ 0
unfolding count_byte
count_byte-Plain [] h = refl
count_byte-Plain (c ∷ s) h = let ih = count_byte-Plain s h.1 in ground (arith, h.0.0)

count_byte-append :
    (s t : Text) → count_byte b':' s ≡ 0 → count_byte b':' (s ++ (b'@' ∷ t)) ≡ count_byte b':' t
unfolding count_byte
count_byte-append [] t h = ground arith
count_byte-append (c ∷ s) t h = elim (Bool-cases (eqb c b':')) [
  | inl e ↦ cc (rw e at h)
  | inr e ↦ rw e (count_byte-append s t (rw e at h))
]

no_port :
    (local norm : Text)
    → All Plain local
    → All Plain norm
    → splits_host_port (to_lower local ++ (b'@' ∷ norm)) ≡ false
unfolding splits_host_port
no_port local norm h k = rw (
  count_byte-append (to_lower local) norm
      (count_byte-Plain (to_lower local) (to_lower-bytes local h)),
  count_byte-Plain norm k,
)

cut-Plain : (s t : Text) → All Plain s → cut b'@' (s ++ (b'@' ∷ t)) ≡ some (s, t)
unfolding cut
cut-Plain [] t h = ground arith
cut-Plain (c ∷ s) t h =
    let e : eqb c b'@' ≡ false = ground (arith, h.0.3) in rw (e, cut-Plain s t h.1)

module _ (to_ascii : Text → Checked Text) where
  -- An address is built exactly if the local part is a dot-atom once surrounding space is removed
  -- and the domain is accepted; it is the local part in lower case, its surrounding space included,
  -- with "@" and the normalized domain. The test for a port never refuses one.
  pub build_address_iff :
      (local fqdn addr : Text)
      → (build_address to_ascii local fqdn ≡ ok addr) ↔ (
          IsDotAtom (trim_space local)
          × ((norm : Text) × (normalize_domain to_ascii fqdn ≡ ok norm)
              × (addr ≡ to_lower local ++ (b'@' ∷ norm))))
  unfolding build_address
  build_address_iff local fqdn addr = (to, from)
    where
      finish_at : Text → Checked Text
      finish_at norm =
          reject_if (splits_host_port (to_lower local ++ (b'@' ∷ norm)))
            "address must not contain a port"
          >>= λ _. ok (to_lower local ++ (b'@' ∷ norm))

      finish : Checked Text
      finish = normalize_domain to_ascii fqdn >>= finish_at

      to :
          build_address to_ascii local fqdn ≡ ok addr
          → IsDotAtom (trim_space local)
            × ((norm : Text) × (normalize_domain to_ascii fqdn ≡ ok norm)
                × (addr ≡ to_lower local ++ (b'@' ∷ norm)))
      to h =
          let (u, valid, h') = >>=-eq-ok (validate_local_part local) (λ _. finish) h in
          let (norm, e, h'') = >>=-eq-ok (normalize_domain to_ascii fqdn) finish_at h' in
          let atom = (validate_local_part_iff local).0 valid in
          let bytes = trim_space-bytes local (IsDotAtom-bytes (trim_space local) atom) in
          let host = IsHostname-Plain norm (normalize_domain-IsHostname to_ascii fqdn norm e).0 in
          let q : ok (to_lower local ++ (b'@' ∷ norm)) ≡ ok addr =
            rw (no_port local norm bytes host) at h'' in
          (atom, (norm, e, cc))

      from :
          IsDotAtom (trim_space local)
            × ((norm : Text) × (normalize_domain to_ascii fqdn ≡ ok norm)
                × (addr ≡ to_lower local ++ (b'@' ∷ norm)))
          → build_address to_ascii local fqdn ≡ ok addr
      from (atom, (norm, e, q)) =
          let bytes = trim_space-bytes local (IsDotAtom-bytes (trim_space local) atom) in
          let host = IsHostname-Plain norm (normalize_domain-IsHostname to_ascii fqdn norm e).0 in
          rw (q, (validate_local_part_iff local).1 atom, e, no_port local norm bytes host) refl

  -- A space in front of a valid local part passes the check and stands in the address.
  pub build_address-space :
      (c : ℕ) (local fqdn norm : Text)
      → is_space c ≡ true
      → IsDotAtom (trim_space (c ∷ local))
      → normalize_domain to_ascii fqdn ≡ ok norm
      → build_address to_ascii (c ∷ local) fqdn ≡ ok (c ∷ (to_lower local ++ (b'@' ∷ norm)))
  unfolding to_lower
  build_address-space c local fqdn norm space atom e =
      let same : lower_byte c ≡ c = unfold lower_byte is_space in ground arith in
      (build_address_iff (c ∷ local) fqdn (c ∷ (to_lower local ++ (b'@' ∷ norm)))).1
        (atom, (norm, e, rw same refl))

  -- The text before the first "@" of an address is the local part that it was built from, in lower
  -- case, and the text after it is the normalized domain.
  pub cut-build_address :
      (local fqdn addr : Text)
      → build_address to_ascii local fqdn ≡ ok addr
      → (norm : Text) × (normalize_domain to_ascii fqdn ≡ ok norm)
        × (cut b'@' addr ≡ some (to_lower local, norm))
  cut-build_address local fqdn addr h =
      let (atom, (norm, e, q)) = (build_address_iff local fqdn addr).0 h in
      let bytes = trim_space-bytes local (IsDotAtom-bytes (trim_space local) atom) in
      (norm, e, rw q (cut-Plain (to_lower local) norm (to_lower-bytes local bytes)))
