-- ===== src/Agent.antt =====
-- The companion of the mail server: cmd/chasquid-agent/main.go. It keeps no state but the files of the
-- server's configuration. A call of the operating system may be refused; the n-th call is counted by
-- `calls`. chasquid-util, pkill and pgrep are parameters, and chasquid-util may change the files.
pub mod Contents
pub mod Aliases
pub mod Users
pub mod Domains
pub mod Client
use selfu.Base.{
  ℕ, ◌+◌, Bool, true, false, not, ◌&&◌, Option, none, some, List, [], ◌∷◌, ◌++◌, Text, text, String,
  ◌==◌, ◌||◌, if◌then◌else◌, join, contains, take, length, leb, is_empty, has_prefix,
}
use selfu.Store.Exec.Tables.{find, delete_where}

pub record File : Type 0 where
  pub path : Text
  pub content : Text

pub data Signal : Type 0 where
  hup term : Signal

-- What a run of chasquid-util left
pub record Run : Type 0 where
  pub succeeded : Bool
  pub output : Text
  pub files : List File

pub record Host : Type 0 where
  pub conf : Text
  pub token : Text
  pub refused : ℕ → Bool
  pub util : ℕ → List Text → List File → Run
  pub pkill : ℕ → Bool × Text
  pub pgrep : ℕ → Bool × Text

pub record Disk : Type 0 where
  pub calls : ℕ
  pub files : List File
  pub dirs : List Text
  pub signals : List Signal

-- An error with its status, an answer, or the empty reply with status 200 that a handler leaves when
-- it returns without writing. The text of an error is left out.
pub data AgentReply {ℓ} (A : Type ℓ) : Type ℓ where
  error : ℕ → AgentReply A
  answer : A → AgentReply A
  silence : AgentReply A

abbrev pub AgentHandler {ℓ} : Type ℓ → Type ℓ
AgentHandler A = Disk → AgentReply A × Disk

-- `req`
pub record Request : Type 0 where
  pub domain : Text
  pub address : Text
  pub password : Text
  pub local : Text
  pub destinations : List Text
  pub allowed_from : List Text

-- `!readReq(w, r, &in) || in.… == ""` at the start of a handler
abbrev pub with_request {ℓ} :
    {A : Type ℓ} → (Request → Text) → Option Request → (Request → AgentHandler A) → AgentHandler A
with_request field none k s = (error 400, s)
with_request field (some r) k s = if is_empty (field r) then (silence, s) else k r s

abbrev pub counted : Disk → Disk
counted s = record s { calls = s.calls + 1 }

-- `filepath.Join`, for names that need no cleaning
unfoldable pub file_path : List Text → Text
file_path names = join (text "/") names

-- `os.ReadFile`
unfoldable pub read_file : Host → Text → Disk → Option Text × Disk
read_file h path s =
    (if h.refused s.calls then none else found (find (λ f. f.path == path) s.files), counted s)
  where
    found : Option File → Option Text
    found none = none
    found (some f) = some f.content

unfoldable pub put_file : Text → Text → List File → List File
put_file path content files =
    record { path = path; content = content } ∷ delete_where (λ f. f.path == path) files

-- `os.WriteFile`: whether it succeeded
unfoldable pub write_file : Host → Text → Text → Disk → Bool × Disk
unfolding put_file
write_file h path content s =
    if h.refused s.calls
    then (false, counted s)
    else (true, record s { calls = s.calls + 1; files = put_file path content s.files })

-- `os.MkdirAll`
unfoldable pub make_dir : Host → Text → Disk → Bool × Disk
make_dir h dir s =
    if h.refused s.calls
    then (false, counted s)
    else (true, record s { calls = s.calls + 1; dirs = dir ∷ s.dirs })

-- `os.RemoveAll`
unfoldable pub remove_all : Host → Text → Disk → Bool × Disk
remove_all h dir s = if h.refused s.calls then (false, counted s) else (
  true,
  record s {
    calls = s.calls + 1;
    files = delete_where (λ f. has_prefix f.path (dir ++ text "/")) s.files;
    dirs = delete_where (λ other. other == dir || has_prefix other (dir ++ text "/")) s.dirs;
  },
)

-- A command of chasquid-util: whether it succeeded, and its output
unfoldable pub util_cmd : Host → List Text → Disk → Bool × Text × Disk
util_cmd h args s =
    let run = h.util s.calls args s.files in
    (run.succeeded, run.output, record s { calls = s.calls + 1; files = run.files })

-- `signalDaemon`: whether it returned no error
unfoldable pub signal_daemon : Host → Disk → Bool × Disk
unfolding contains
signal_daemon h s =
    let (done, out) = h.pkill s.calls in
    (
      if done then true else contains out (text "No matching processes"),
      record s { calls = s.calls + 1; signals = Signal.hup ∷ s.signals },
    )

unfoldable pub trunc : Text → ℕ → Text
trunc s n = if leb (length s) n then s else take n s ++ text "..."

-- `auth`
unfoldable pub auth {ℓ} : {A : Type ℓ} → Host → Text → AgentHandler A → AgentHandler A
unfolding ◌==◌
auth h given next s = if given == h.token then next s else (error 401, s)

unfoldable pub daemon_running : Host → Disk → Bool × Disk
daemon_running h s = let (done, out) = h.pgrep s.calls in (done && not (is_empty out), counted s)

unfoldable pub handle_health : Host → AgentHandler (Unit {0})
unfolding util_cmd daemon_running
handle_health h s =
    let (parsed, out, checked) = util_cmd h (text "print-config" ∷ []) s in
    let (running, after) = daemon_running h checked in
    if parsed
    then if running then (answer tt, after) else (error 503, after)
    else (error 503, checked)

unfoldable pub handle_reload : Host → AgentHandler (Unit {0})
unfolding signal_daemon
handle_reload h s =
    let (done, after) = signal_daemon h s in if done then (answer tt, after) else (error 500, after)

unfoldable pub handle_restart : Host → AgentHandler (Unit {0})
handle_restart h s =
    (answer tt, record s { calls = s.calls + 1; signals = Signal.term ∷ s.signals })
