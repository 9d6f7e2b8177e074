-- ===== src/Domain/Addresses.antt =====
-- Local parts and addresses of internal/domain/mail.go.
pub mod DotAtoms
pub mod Parts
use selfu.Base.{
  ℕ, suc, ◌+◌, Bool, true, false, not, ◌&&◌, ◌||◌, List, [], ◌∷◌, ◌++◌, Text, text, ltb, leb, eqb,
  length, is_empty, any, if◌then◌else◌, Checked, ok, ◌>>=◌, ◌>>◌, reject_if, trim_space, to_lower,
  has_prefix, has_suffix, contains,
}
use selfu.Domain.Names.{normalize_domain}

unfoldable pub is_atom_byte : ℕ → Bool
is_atom_byte c =
    (leb b'a' c && leb c b'z')
    || (leb b'A' c && leb c b'Z')
    || (leb b'0' c && leb c b'9')
    || (eqb c b'.' || (eqb c b'_' || (eqb c b'-' || eqb c b'+')))

unfoldable pub all_atom_bytes : Text → Bool
all_atom_bytes [] = true
all_atom_bytes (c ∷ s) = is_atom_byte c && all_atom_bytes s

unfoldable pub dots_misplaced : Text → Bool
dots_misplaced local =
    has_prefix local (text ".") || (has_suffix local (text ".") || contains local (text ".."))

unfoldable pub validate_local_part : Text → Checked (Unit {0})
validate_local_part raw = do
  let local = trim_space raw
  reject_if (is_empty local) "local part is required"
  reject_if (ltb 64 (length local)) "local part too long"
  reject_if (not (all_atom_bytes local)) "invalid character in local part"
  reject_if (dots_misplaced local) "local part must not start/end with or contain consecutive dots"

count_byte : ℕ → Text → ℕ
count_byte b [] = 0
count_byte b (c ∷ s) = let rest = count_byte b s in if eqb c b then suc rest else rest

-- `net.SplitHostPort` succeeds on a text that does not begin with "[": one colon, no bracket.
unfoldable pub splits_host_port : Text → Bool
unfolding count_byte
splits_host_port s = eqb (count_byte b':' s) 1 && not (any (λ c. eqb c b'[' || eqb c b']') s)

unfoldable pub build_address : (Text → Checked Text) → Text → Text → Checked Text
build_address to_ascii local_part fqdn = do
  validate_local_part local_part
  norm ← normalize_domain to_ascii fqdn
  let addr = to_lower local_part ++ (b'@' ∷ norm)
  reject_if (splits_host_port addr) "address must not contain a port"
  ok addr
