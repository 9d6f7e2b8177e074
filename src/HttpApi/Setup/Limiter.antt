-- ===== src/HttpApi/Setup/Limiter.antt =====
-- The limiter of password guesses: `loginLimiter` and `clientKey` of
-- internal/httpapi/setup_handlers.go. Times are in seconds.
use selfu.Base.{
  ℕ, suc, ◌+◌, ◌-◌, ◌≤◌, ◌≡◌, Bool, true, Option, none, some, Text, ◌==◌, if◌then◌else◌, leb, ltb,
  arith, index_byte, take, trim_space, is_empty,
}
use selfu.Store.State.{LoginFails}

abbrev pub login_max_fails : ℕ
login_max_fails = 10

-- `time.Minute`
abbrev pub minute : ℕ
minute = 60

-- `map[string]*loginFails`
abbrev pub Limiter : Type 0
Limiter = Text → Option LoginFails

unfoldable pub put : Text → Option LoginFails → Limiter → Limiter
put key entry fails k = if key == k then entry else fails k

-- `time.Since(f.windowStart) > time.Minute`
unfoldable pub stale : ℕ → LoginFails → Bool
stale now f = ltb minute (now - f.window_start)

unfoldable pub allowed : ℕ → Option LoginFails → Bool
unfolding stale
allowed now none = true
allowed now (some f) = if stale now f then true else ltb f.count login_max_fails

unfoldable pub allow : Limiter → ℕ → Text → Bool
unfolding allowed
allow fails now key = allowed now (fails key)

unfoldable pub bumped : ℕ → Option LoginFails → LoginFails
unfolding stale
bumped now none = record { count = 1; window_start = now }
bumped now (some f) =
    if stale now f
    then record { count = 1; window_start = now }
    else record f { count = suc f.count }

unfoldable pub record_fail : Limiter → ℕ → Text → Limiter
unfolding put bumped
record_fail fails now key = put key (some (bumped now (fails key))) fails

unfoldable pub reset : Text → Limiter → Limiter
unfolding put
reset key fails = put key none fails

-- The header and the address of the peer that `clientKey` reads
pub record Client : Type 0 where
  pub forwarded_for : Text
  pub remote_addr : Text

-- `split_host_port` is the host that net.SplitHostPort finds.
unfoldable pub client_key : (Text → Option Text) → Client → Text
client_key split_host_port c =
    if is_empty c.forwarded_for
    then elim (split_host_port c.remote_addr) [ some host ↦ host | none ↦ c.remote_addr ]
    else elim (index_byte c.forwarded_for b',') [
      | some i ↦ trim_space (take i c.forwarded_for)
      | none ↦ trim_space c.forwarded_for
    ]

-- How many wrong guesses a client may still make up to a minute after `since`: what its window
-- leaves, and a whole new window if this one was opened before.
abbrev pub spare : ℕ → Option LoginFails → ℕ
spare since none = login_max_fails
spare since (some f) =
    if leb since f.window_start
    then login_max_fails - f.count
    else (login_max_fails - f.count) + login_max_fails

-- A guess that is let through uses one up.
pub spare-bumped :
    (since now : ℕ) (f : Option LoginFails)
    → since ≤ now
    → now ≤ since + minute
    → allowed now f ≡ true
    → spare since (some (bumped now f)) + 1 ≤ spare since f
unfolding allowed bumped stale
spare-bumped since now none lo hi ok = ground arith
spare-bumped since now (some f) lo hi ok = ground arith

pub spare-bound : (since : ℕ) (f : Option LoginFails) → spare since f ≤ 20
spare-bound since none = omega arith
spare-bound since (some f) = ground arith
