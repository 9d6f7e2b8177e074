-- ===== src/Agent/Domains.antt =====
-- The directories of domains and their signing keys: the other handlers of
-- cmd/chasquid-agent/main.go. `scan_users` is what fmt.Sscanf reads with the format
-- "Database loaded (%d users)", if it reads anything.
use selfu.Base.{
  ℕ, ◌+◌, Bool, true, false, ◌&&◌, Option, none, some, List, [], ◌∷◌, ◌++◌, Text, text, ◌==◌,
  if◌then◌else◌, is_empty, trim_space, trim_suffix, split, contains, has_prefix, has_suffix,
  last_index_byte, drop, length,
}
use selfu.Store.Exec.Tables.{select, order_by, exists}
use selfu.Agent.{
  Host, Disk, File, AgentReply, error, answer, AgentHandler, Request, with_request, file_path,
  read_file, write_file, make_dir, remove_all, util_cmd, counted,
}
use selfu.Agent.Aliases.{aliases_path}

pub record DomainState : Type 0 where
  pub exists : Bool
  pub users : ℕ
  pub aliases : ℕ

pub record DkimInfo : Type 0 where
  pub selector : Text
  pub record_text : Text

-- The lines of the aliases file that are not blank
unfoldable pub count_lines : List Text → ℕ
unfolding trim_space
count_lines [] = 0
count_lines (ln ∷ lines) =
    let rest = count_lines lines in if is_empty (trim_space ln) then rest else rest + 1

unfoldable pub count_aliases : Option Text → ℕ
unfolding count_lines split
count_aliases none = 0
count_aliases (some content) = count_lines (split b'\n' content)

-- `dkimRecord`
unfoldable pub dkim_line : Text → List Text → Text
unfolding contains trim_space
dkim_line out [] = trim_space out
dkim_line out (line ∷ lines) =
    let rest = dkim_line out lines in
    if contains (trim_space line) (text "v=DKIM1") then trim_space line else rest

unfoldable pub dkim_text : Text → Text
unfolding dkim_line split
dkim_text out = dkim_line out (split b'\n' out)

unfoldable pub trim_prefix : Text → Text → Text
unfolding has_prefix
trim_prefix s prefix = if has_prefix s prefix then drop (length prefix) s else s

-- `filepath.Base`, of a path that does not end in a slash
unfoldable pub base_name : Text → Text
base_name path = elim (last_index_byte path b'/') [ some i ↦ drop (i + 1) path | none ↦ path ]

unfoldable pub selector_of : Text → Text
unfolding base_name trim_prefix trim_suffix
selector_of path = trim_suffix (trim_prefix (base_name path) (text "dkim:")) (text ".pem")

module _ (h : Host) where
  unfoldable pub domain_dir : Text → Text
  unfolding file_path
  domain_dir domain = file_path (h.conf ∷ text "domains" ∷ domain ∷ [])

  unfoldable pub handle_ensure_domain : Option Request → AgentHandler Text
  unfolding make_dir domain_dir
  handle_ensure_domain body =
      with_request (λ r. r.domain) body
        (λ r s.
          let (made, s) = make_dir h (domain_dir r.domain) s in
          if made then (answer (domain_dir r.domain), s) else (error 500, s))

  unfoldable pub handle_remove_domain : Option Request → AgentHandler (Unit {0})
  unfolding remove_all domain_dir
  handle_remove_domain body =
      with_request (λ r. r.domain) body
        (λ r s.
          let (removed, s) = remove_all h (domain_dir r.domain) s in
          if removed then (answer tt, s) else (error 500, s))

  -- `os.Stat`: whether the directory is there
  unfoldable pub dir_exists : Text → Disk → Bool × Disk
  dir_exists dir s =
      (if h.refused s.calls then false else exists (λ other. other == dir) s.dirs, counted s)

  unfoldable pub handle_check_domain : (Text → Option ℕ) → Option Request → AgentHandler DomainState
  unfolding util_cmd read_file aliases_path count_aliases dir_exists domain_dir
  handle_check_domain scan_users body =
      with_request (λ r. r.domain) body
        (λ r s.
          let (checked, out, s) = util_cmd h (text "check-userdb" ∷ r.domain ∷ []) s in
          let (content, s) = read_file h (aliases_path h r.domain) s in
          let (there, s) = dir_exists (domain_dir r.domain) s in
          (
            answer (record {
              exists = there;
              users = if checked then users_of (scan_users out) else 0;
              aliases = count_aliases content;
            }),
            s,
          ))
    where
      users_of : Option ℕ → ℕ
      users_of none = 0
      users_of (some n) = n

  -- `filepath.Glob` of `dkim:*.pem` in the directory of the domain
  unfoldable pub dkim_keys : Text → Disk → List File
  unfolding domain_dir base_name
  dkim_keys domain s =
      order_by (λ f. f.path)
        (select
          (λ f.
            has_prefix f.path (domain_dir domain ++ text "/dkim:")
            && (f.path == domain_dir domain ++ (text "/" ++ base_name f.path)
                && has_suffix f.path (text ".pem")))
          s.files)

  -- The key that is there after a key was generated, if one had to be
  unfoldable pub first_key : Text → Text → AgentHandler DkimInfo
  unfolding dkim_keys selector_of
  first_key domain found s = go (dkim_keys domain s)
    where
      go : List File → AgentReply DkimInfo × Disk
      go [] = (error 500, s)
      go (key ∷ keys) = (
        answer (record {
          selector = selector_of key.path;
          record_text =
              if is_empty found
              then text "(key already present; re-run keygen output not available)"
              else found;
        }),
        s,
      )

  unfoldable pub handle_ensure_dkim : Option Request → AgentHandler DkimInfo
  unfolding util_cmd first_key dkim_keys dkim_text
  handle_ensure_dkim body =
      with_request (λ r. r.domain) body
        (λ r s.
          let (done, out, after) = util_cmd h (text "dkim-keygen" ∷ r.domain ∷ []) s in
          if is_empty (dkim_keys r.domain s)
          then if done then first_key r.domain (dkim_text out) after else (error 500, after)
          else first_key r.domain [] s)

  unfoldable pub hooks_dir : Text
  unfolding file_path
  hooks_dir = file_path (h.conf ∷ text "hooks" ∷ [])

  -- `ensureHook`, which writes the script if no file is in its place
  unfoldable pub ensure_hook : Text → Disk → Bool × Disk
  unfolding make_dir write_file hooks_dir
  ensure_hook script s =
      let path = hooks_dir ++ text "/post-data" in
      let (made, s) = make_dir h hooks_dir s in
      let (wrote, after) = write_file h path script (counted s) in
      if made then if stat path s then (true, counted s) else (wrote, after) else (false, s)
    where
      stat : Text → Disk → Bool
      stat path s = if h.refused s.calls then false else exists (λ f. f.path == path) s.files
