-- ===== src/Deploy.antt =====
-- The names that are derived from instance ids: `sanitize` of internal/deploy/deploy.go (the name of
-- a compose project) and `sanitize` of internal/traefik/traefik.go (the name of a router). A byte
-- above 127 is dropped, as the rune that it belongs to is.
pub mod Naming
pub mod Manifest
pub mod Compose
use selfu.Base.{
  ℕ, ◌+◌, Bool, true, false, ◌&&◌, ◌||◌, [], ◌∷◌, Text, text, leb, ltb, eqb, length, take, is_empty,
  if◌then◌else◌, trim_byte,
}

unfoldable pub is_lower_alnum : ℕ → Bool
is_lower_alnum c = (leb b'a' c && leb c b'z') || (leb b'0' c && leb c b'9')

-- The loop of both functions; `extra` says which other bytes are kept.
unfoldable pub keep_bytes : (ℕ → Bool) → Text → Text
unfolding is_lower_alnum
keep_bytes extra [] = []
keep_bytes extra (c ∷ s) =
    let rest = keep_bytes extra s in
    if is_lower_alnum c || extra c
    then c ∷ rest
    else if leb b'A' c && leb c b'Z'
    then (c + 32) ∷ rest
    else rest

-- `if out == "" { out = "app" }; if len(out) > n { out = out[:n] }`
unfoldable pub bounded : ℕ → Text → Text
bounded n s =
    let name = if is_empty s then text "app" else s in
    if ltb n (length name) then take n name else name

unfoldable pub project_name : Text → Text
unfolding keep_bytes bounded
project_name s = bounded 40 (keep_bytes (λ c. eqb c b'-' || eqb c b'_') s)

unfoldable pub router_name : Text → Text
unfolding keep_bytes bounded
router_name s = bounded 20 (trim_byte b'-' (keep_bytes (λ c. eqb c b'-') s))
