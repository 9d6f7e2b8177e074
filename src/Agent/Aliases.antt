-- ===== src/Agent/Aliases.antt =====
-- The aliases file of a domain: `setAlias`, `removeAliasLine` and the handlers of aliases of
-- cmd/chasquid-agent/main.go.
pub mod Lines
pub mod Solid
pub mod Refine
use selfu.Base.{
  ℕ, Bool, true, false, Option, none, some, List, [], ◌∷◌, ◌++◌, Text, text, ◌==◌, if◌then◌else◌,
  is_empty, trim_space, to_lower, split, cut, join,
}
use selfu.Agent.{
  Host, Disk, AgentReply, error, answer, AgentHandler, Request, with_request, file_path, read_file,
  write_file, signal_daemon,
}

-- `strings.EqualFold`
unfoldable pub equal_fold : Text → Text → Bool
unfolding to_lower ◌==◌
equal_fold s t = to_lower s == to_lower t

unfoldable pub is_key : Text → Option (Text × Text) → Bool
unfolding equal_fold trim_space
is_key local none = false
is_key local (some (key, rest)) = equal_fold (trim_space key) local

-- The lines that `setAlias` keeps, trimmed
unfoldable pub kept_lines : Text → List Text → List Text
unfolding is_key
kept_lines local [] = []
kept_lines local (ln ∷ lines) =
    let rest = kept_lines local lines in
    let trimmed = trim_space ln in
    if is_empty trimmed
    then rest
    else if is_key local (cut b':' trimmed)
    then rest
    else trimmed ∷ rest

-- The line of the alias, if it has a destination
unfoldable pub alias_line : Text → List Text → List Text
alias_line local [] = []
alias_line local (x ∷ xs) = (local ++ (text ": " ++ join (text ", ") (x ∷ xs))) ∷ []

-- The text of the new file, from the text of the old one if it could be read
unfoldable pub alias_file : Text → List Text → Option Text → Text
unfolding kept_lines alias_line
alias_file local destinations old =
    join (text "\n") (lines_of old ++ alias_line local destinations) ++ text "\n"
  where
    lines_of : Option Text → List Text
    lines_of none = []
    lines_of (some content) = kept_lines local (split b'\n' content)

module _ (h : Host) where
  unfoldable pub aliases_path : Text → Text
  unfolding file_path
  aliases_path domain = file_path (h.conf ∷ text "domains" ∷ domain ∷ text "aliases" ∷ [])

  unfoldable pub set_alias : Text → Text → List Text → Disk → Bool × Disk
  unfolding aliases_path read_file write_file alias_file
  set_alias domain local destinations s =
      let (old, s) = read_file h (aliases_path domain) s in
      write_file h (aliases_path domain) (alias_file local destinations old) s

  unfoldable pub remove_alias_line : Text → Text → Disk → Disk
  unfolding set_alias
  remove_alias_line domain local s = (set_alias domain local [] s).1

  unfoldable pub handle_ensure_alias : Option Request → AgentHandler (Unit {0})
  unfolding set_alias signal_daemon
  handle_ensure_alias body =
      with_request (λ r. r.domain) body
        (λ r s.
          let (wrote, s) = set_alias r.domain r.local r.destinations s in
          let (signalled, after) = signal_daemon h s in
          if wrote
          then if signalled then (answer tt, after) else (error 500, after)
          else (error 500, s))

  unfoldable pub handle_remove_alias : Option Request → AgentHandler (Unit {0})
  unfolding remove_alias_line signal_daemon
  handle_remove_alias body =
      with_request (λ r. r.domain) body
        (λ r s. (answer tt, (signal_daemon h (remove_alias_line r.domain r.local s)).1))
