-- ===== src/Domain/Slugs.antt =====
-- `Slugify` of internal/domain/identity.go. A byte above 127 takes the default branch, as the rune
-- that it belongs to does.
pub mod Shape
use selfu.Base.{
  ℕ, Bool, true, false, not, ◌&&◌, ◌||◌, ◌==◌, [], ◌∷◌, ◌++◌, Text, text, is_empty, if◌then◌else◌,
  trim_space, to_lower, trim_byte,
}
use selfu.Domain.Names.{is_alnum}

-- One round of the loop: the text written so far, and whether it was closed by a dash.
unfoldable pub slug_step : Text → Bool → ℕ → Text × Bool
slug_step out last_dash c =
    if is_alnum c
    then (out ++ (c ∷ []), false)
    else if not last_dash && not (is_empty out)
    then (out ++ (b'-' ∷ []), true)
    else (out, last_dash)

unfoldable pub slug_loop : Text → Bool → Text → Text
unfolding slug_step
slug_loop out last_dash [] = out
slug_loop out last_dash (c ∷ s) = let next = slug_step out last_dash c in slug_loop next.0 next.1 s

unfoldable pub slugify : Text → Text
slugify s =
    let out = trim_byte b'-' (slug_loop [] false (to_lower (trim_space s))) in
    if is_empty out then text "org" else out

-- `slugifyInstance` of internal/httpapi/apps_handlers.go
unfoldable pub slugify_instance : Text → Text
slugify_instance name =
    let s = slugify name in if is_empty s || s == text "org" then text "app" else s
