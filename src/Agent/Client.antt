-- ===== src/Agent/Client.antt =====
-- The client of the companion: `AgentClient` of internal/chasquid/chasquid.go, together with the
-- routes of `main` of cmd/chasquid-agent/main.go. A request may be lost before it is handled, and its
-- reply after that. JSON carries the fields of a request unchanged.
use selfu.Base.{
  ℕ, Bool, true, false, Option, none, some, List, [], ◌++◌, Text, text, if◌then◌else◌, leb,
  trim_suffix, length, take,
}
use selfu.Agent.{
  Host, Disk, AgentReply, error, answer, silence, AgentHandler, Request, auth, handle_health,
  handle_reload, handle_restart,
}
use selfu.Agent.Aliases.{handle_ensure_alias, handle_remove_alias}
use selfu.Agent.Users.{
  handle_add_user, handle_remove_user, handle_change_password, handle_user_exists,
  handle_ensure_policy,
}
use selfu.Agent.Domains.{
  DomainState, DkimInfo, handle_ensure_domain, handle_remove_domain, handle_check_domain,
  handle_ensure_dkim,
}

pub record AgentClient : Type 0 where
  pub base : Text
  pub token : Text

-- What becomes of a request
pub data Transport : Type 0 where
  delivered lost unanswered : Transport

-- What a call of the client returns: nothing on an error
abbrev pub Call {ℓ} : Type ℓ → Type ℓ
Call A = Disk → Option A × Disk

unfoldable pub new_agent_client : Text → Text → AgentClient
unfolding trim_suffix
new_agent_client base token = record { base = trim_suffix base (text "/"); token = token }

unfoldable pub truncate : Text → ℕ → Text
truncate s n = if leb (length s) n then s else take n s ++ text "..."

abbrev pub blank : Request
blank = record {
  domain = [];
  address = [];
  password = [];
  local = [];
  destinations = [];
  allowed_from = [];
}

-- The end of `do`: an error from status 300 on
unfoldable pub accepted {ℓ} : {A : Type ℓ} → AgentReply A → Option (Unit {0})
accepted (error status) = if leb 300 status then none else some tt
accepted (answer a) = some tt
accepted silence = some tt

-- The end of `doInto`: a reply without a body leaves the zero value.
unfoldable pub decoded {ℓ} : {A : Type ℓ} → A → AgentReply A → Option A
decoded zero (error status) = if leb 300 status then none else some zero
decoded zero (answer a) = some a
decoded zero silence = some zero

unfoldable pub carried {ℓ} : {A : Type ℓ} → Transport → Disk → Option A → Disk → Option A × Disk
carried Transport.delivered s reply after = (reply, after)
carried Transport.lost s reply after = (none, s)
carried Transport.unanswered s reply after = (none, after)

module _ (h : Host) (c : AgentClient) (transport : ℕ → Transport) where
  unfoldable pub send {ℓ} : {A : Type ℓ} → AgentHandler A → Call (Unit {0})
  unfolding auth accepted carried
  send handler s =
      let (reply, after) = auth h c.token handler s in
      carried (transport s.calls) s (accepted reply) after

  unfoldable pub send_into {ℓ} : {A : Type ℓ} → A → AgentHandler A → Call A
  unfolding auth decoded carried
  send_into zero handler s =
      let (reply, after) = auth h c.token handler s in
      carried (transport s.calls) s (decoded zero reply) after

  unfoldable pub client_add_user : Text → Text → Call (Unit {0})
  unfolding send handle_add_user
  client_add_user address password =
      send (handle_add_user h (some (record blank { address = address; password = password })))

  unfoldable pub client_remove_user : Text → Call (Unit {0})
  unfolding send handle_remove_user
  client_remove_user address =
      send (handle_remove_user h (some (record blank { address = address })))

  unfoldable pub client_change_password : Text → Text → Call (Unit {0})
  unfolding send handle_change_password
  client_change_password address password =
      send
        (handle_change_password h (some (record blank { address = address; password = password })))

  unfoldable pub client_ensure_domain : Text → Call (Unit {0})
  unfolding send handle_ensure_domain
  client_ensure_domain domain =
      send (handle_ensure_domain h (some (record blank { domain = domain })))

  unfoldable pub client_remove_domain : Text → Call (Unit {0})
  unfolding send handle_remove_domain
  client_remove_domain domain =
      send (handle_remove_domain h (some (record blank { domain = domain })))

  unfoldable pub client_ensure_alias : Text → Text → List Text → Call (Unit {0})
  unfolding send handle_ensure_alias
  client_ensure_alias domain local destinations = send (
      handle_ensure_alias h
        (some (record blank { domain = domain; local = local; destinations = destinations })))

  unfoldable pub client_remove_alias : Text → Text → Call (Unit {0})
  unfolding send handle_remove_alias
  client_remove_alias domain local =
      send (handle_remove_alias h (some (record blank { domain = domain; local = local })))

  unfoldable pub client_ensure_sender_policy : Text → List Text → Call (Unit {0})
  unfolding send handle_ensure_policy
  client_ensure_sender_policy user allowed =
      send (handle_ensure_policy h (some (record blank { address = user; allowed_from = allowed })))

  unfoldable pub client_ensure_dkim : Text → Call DkimInfo
  unfolding send_into handle_ensure_dkim
  client_ensure_dkim domain =
      send_into (record { selector = []; record_text = [] })
        (handle_ensure_dkim h (some (record blank { domain = domain })))

  unfoldable pub client_check_domain : (Text → Option ℕ) → Text → Call DomainState
  unfolding send_into handle_check_domain
  client_check_domain scan_users domain =
      send_into (record { exists = false; users = 0; aliases = 0 })
        (handle_check_domain h scan_users (some (record blank { domain = domain })))

  unfoldable pub client_user_exists : Text → Call Bool
  unfolding send_into handle_user_exists
  client_user_exists address =
      send_into false (handle_user_exists h (some (record blank { address = address })))

  unfoldable pub client_reload : Call (Unit {0})
  unfolding send handle_reload
  client_reload = send (handle_reload h)

  unfoldable pub client_restart : Call (Unit {0})
  unfolding send handle_restart
  client_restart = send (handle_restart h)

  -- `Status`: whether the server is healthy
  unfoldable pub client_status : Disk → Bool × Disk
  unfolding send handle_health
  client_status s = let (reply, after) = send (handle_health h) s in (healthy reply, after)
    where
      healthy : Option (Unit {0}) → Bool
      healthy none = false
      healthy (some u) = true
