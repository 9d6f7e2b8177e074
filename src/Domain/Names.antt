-- ===== src/Domain/Names.antt =====
-- Domain names of internal/domain/domains.go. `to_ascii` is `idna.Lookup.ToASCII` of
-- golang.org/x/net, a parameter.
pub mod Hostnames
pub mod Containment
use selfu.Base.{
  ℕ, zero, suc, ◌+◌, ◌-◌, Bool, true, false, not, ◌&&◌, ◌||◌, List, [], ◌∷◌, ◌++◌, Text, text, ◌==◌,
  ltb, leb, eqb, length, is_empty, if◌then◌else◌, Checked, ok, err, ◌>>=◌, ◌>>◌, reject_if,
  trim_space, trim_suffix, to_lower, split, has_suffix,
}

unfoldable pub is_alnum : ℕ → Bool
is_alnum c = (leb b'a' c && leb c b'z') || (leb b'0' c && leb c b'9')

-- The loop over the bytes of a label of length `n`, from position `i`.
unfoldable pub check_bytes : ℕ → ℕ → Text → Checked (Unit {0})
unfolding is_alnum
check_bytes n i [] = ok tt
check_bytes n i (c ∷ s) =
    let rest = check_bytes n (i + 1) s in
    if eqb c b'-'
    then if eqb i 0 || eqb i (n - 1)
      then err "domain label must not start or end with a hyphen"
      else rest
    else if is_alnum c
    then rest
    else err "invalid character in domain label"

unfoldable pub check_label : Text → Checked (Unit {0})
unfolding check_bytes
check_label label = do
  reject_if (is_empty label) "domain has an empty label"
  reject_if (ltb 63 (length label)) "domain label exceeds 63 characters"
  check_bytes (length label) 0 label

unfoldable pub check_labels : List Text → Checked (Unit {0})
unfolding check_label
check_labels [] = ok tt
check_labels (label ∷ labels) = check_label label >> check_labels labels

module _ (to_ascii : Text → Checked Text) where
  unfoldable pub normalize_domain : Text → Checked Text
  normalize_domain input = do
    let s = trim_suffix (trim_space input) (text ".")
    reject_if (is_empty s) "domain is required"
    reject_if (ltb 253 (length s)) "domain is too long"
    ascii ← to_ascii s
    check_labels (split b'.' (to_lower ascii))
    ok (to_lower ascii)

-- The form in which two names are compared.
unfoldable pub canonical : Text → Text
canonical s = trim_suffix (to_lower (trim_space s)) (text ".")

unfoldable pub hostname_within_domain : Text → Text → Bool
hostname_within_domain hostname domain_name =
    let h = canonical hostname in
    let d = canonical domain_name in
    if is_empty h || is_empty d then false else if h == d then true else has_suffix h (b'.' ∷ d)

-- `ValidateLocalDomain` of internal/domain/installation.go
unfoldable pub validate_local_domain : Text → Text
unfolding trim_space to_lower
validate_local_domain s =
    let s = trim_space s in if is_empty s then text "selfu.local" else to_lower s
