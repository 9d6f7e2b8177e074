-- ===== src/Agent/Users.antt =====
-- The mail users and what they may send as: the handlers of users and policies of
-- cmd/chasquid-agent/main.go, and the script that the server runs after DATA.
pub mod Policies
use selfu.Base.{
  ℕ, ◌+◌, Bool, true, false, Option, none, some, List, [], ◌∷◌, ◌++◌, Text, text, ◌==◌,
  if◌then◌else◌, any, is_empty, trim_space, split, cut, contains, last_index_byte, drop,
}
use selfu.Agent.Contents.{content_of}
use selfu.Agent.{
  Host, Disk, AgentReply, error, answer, AgentHandler, Request, with_request, file_path, read_file,
  write_file, make_dir, util_cmd, signal_daemon,
}

-- A line `key: "<local>"` of the database of users
unfoldable pub is_user_line : Text → Option (Text × Text) → Bool
unfolding ◌==◌ trim_space contains
is_user_line local none = false
is_user_line local (some (key, rest)) =
    if trim_space key == text "key"
    then contains rest (text "\"" ++ (local ++ text "\""))
    else false

unfoldable pub lists_user : Text → Option Text → Bool
unfolding is_user_line
lists_user local none = false
lists_user local (some content) = any (λ ln. is_user_line local (cut b':' ln)) (split b'\n' content)

-- `strings.Split(in.Address, "@")[1]`, for an address with an @
unfoldable pub second_part : List Text → Text
second_part [] = []
second_part (p ∷ []) = []
second_part (p ∷ q ∷ parts) = q

-- One allowed address on each line
unfoldable pub policy_text : List Text → Text
policy_text [] = []
policy_text (a ∷ addresses) = a ++ (b'\n' ∷ policy_text addresses)

module _ (h : Host) where
  -- The end of `handleAddUser` and of `handleChangePassword`
  unfoldable pub user_add : Request → AgentHandler (Unit {0})
  unfolding util_cmd signal_daemon
  user_add r s =
      let (done, out, s) =
        util_cmd h (text "user-add" ∷ r.address ∷ (text "--password=" ++ r.password) ∷ []) s in
      if done then (answer tt, (signal_daemon h s).1) else (error 422, s)

  unfoldable pub handle_add_user : Option Request → AgentHandler (Unit {0})
  unfolding user_add
  handle_add_user body = with_request (λ r. r.address) body user_add

  unfoldable pub handle_remove_user : Option Request → AgentHandler (Unit {0})
  unfolding util_cmd signal_daemon
  handle_remove_user body =
      with_request (λ r. r.address) body
        (λ r s.
          let (done, out, s) = util_cmd h (text "user-remove" ∷ r.address ∷ []) s in
          if done then (answer tt, (signal_daemon h s).1) else (error 422, s))

  -- The password is changed by removing the user, whether or not that succeeds, and adding it again.
  unfoldable pub handle_change_password : Option Request → AgentHandler (Unit {0})
  unfolding util_cmd user_add
  handle_change_password body =
      with_request (λ r. r.address) body
        (λ r s.
          let (done, out, s) = util_cmd h (text "user-remove" ∷ r.address ∷ []) s in user_add r s)

  unfoldable pub handle_user_exists : Option Request → AgentHandler Bool
  unfolding lists_user second_part read_file file_path
  handle_user_exists body =
      with_request (λ r. r.address) body (λ r s. go r.address s (cut b'@' r.address))
    where
      go : Text → Disk → Option (Text × Text) → AgentReply Bool × Disk
      go address s none = (error 400, s)
      go address s (some (local, rest)) =
          let domain = second_part (split b'@' address) in
          let (content, s) =
            read_file h (file_path (h.conf ∷ text "domains" ∷ domain ∷ text "users" ∷ [])) s in
          (answer (lists_user local content), s)

  unfoldable pub policies_dir : Text
  unfolding file_path
  policies_dir = file_path (h.conf ∷ text "policies" ∷ [])

  unfoldable pub policy_path : Text → Text
  unfolding file_path
  policy_path address = file_path (h.conf ∷ text "policies" ∷ address ∷ [])

  unfoldable pub handle_ensure_policy : Option Request → AgentHandler (Unit {0})
  unfolding policy_text policy_path policies_dir make_dir write_file
  handle_ensure_policy body =
      with_request (λ r. r.address) body
        (λ r s.
          let (made, s) = make_dir h policies_dir s in
          let (wrote, after) =
            write_file h (policy_path r.address) (policy_text r.allowed_from) s in
          if made then if wrote then (answer tt, after) else (error 500, after) else (error 500, s))

-- `${MAIL_FROM##*@}`
unfoldable pub after_last_at : Text → Text
after_last_at from = elim (last_index_byte from b'@') [ some i ↦ drop (i + 1) from | none ↦ from ]

-- The script `postDataHookScript`: whether it exits with 0. `grep p content` says whether
-- `grep -Fxq "p"` exits with 0 on a file of that content; what grep does with p is up to it, also when p
-- looks like an option.
unfoldable pub post_data_hook : (Text → Text → Bool) → Text → Text → Disk → Bool
unfolding after_last_at content_of
post_data_hook grep auth_as from s =
    if is_empty auth_as
    then true
    else admits (content_of (text "/etc/chasquid/policies/" ++ auth_as) s)
  where
    admits : Option Text → Bool
    admits none = false
    admits (some policy) =
        if grep from policy
        then true
        else if is_empty (after_last_at from)
        then false
        else grep (b'@' ∷ after_last_at from) policy
