-- ===== src/HttpApi.antt =====
-- internal/httpapi: replies, decoded requests, and what the handlers share. A handler is a function
-- of the state: it returns its reply and the state that it leaves. The text of an error's `message`
-- and the log are left out; a request body that cannot be decoded is `none`.
pub mod Seams
pub mod Accounts
pub mod Members
pub mod Invitations
pub mod Ownership
pub mod Mail
pub mod Onboarding
pub mod Sealing
pub mod Setup
pub mod Frames
pub mod Access
use selfu.Base.{
  ◌≡◌, ap, ℕ, Bool, true, false, not, Option, none, some, ◌∷◌, String, Text, if◌then◌else◌,
}
use selfu.Domain.Roles.{OrgRole, can_manage}
use selfu.Domain.Entities.{User}
use selfu.Store.State.{World, AuditEvent}
use selfu.Store.Exec.{StoreError, not_found, failed, Result, got, fails, Deps, Act, call, draw, on}
use selfu.Store.Organizations.{get_membership_role}
use selfu.Store.Mail.{user_exists_or_null}

pub data Reply {ℓ} (A : Type ℓ) : Type ℓ where
  problem : ℕ → String → Reply A
  json : ℕ → A → Reply A

abbrev pub Handler {ℓ} : Type ℓ → Type ℓ
Handler A = World → Reply A × World

abbrev pub reply_error {ℓ} : {A : Type ℓ} → ℕ → String → World → Reply A × World
reply_error status code w = (problem status code, w)

abbrev pub reply_json {ℓ} : {A : Type ℓ} → ℕ → A → World → Reply A × World
reply_json status a w = (json status a, w)

abbrev pub internal_error {ℓ} : {A : Type ℓ} → World → Reply A × World
internal_error w = (problem 500 "internal_error", w)

-- `decodeJSON`: the handler goes on with the request, or answers 400.
abbrev pub with_body {ℓ κ} : {R : Type ℓ} {A : Type κ} → Option R → (R → Handler A) → Handler A
with_body none k w = (problem 400 "invalid_request", w)
with_body (some r) k w = k r w

abbrev pub is_not_found : StoreError → Bool
is_not_found StoreError.not_found = true
is_not_found _ = false

abbrev pub is_conflict : StoreError → Bool
is_conflict StoreError.conflict = true
is_conflict _ = false

module _ (d : Deps) where
  -- `Handler.audit`: a failure to write is logged and changes nothing.
  unfoldable pub audit : AuditEvent → World → World
  unfolding user_exists_or_null
  audit e w = let drawn = draw d w in (call d write drawn.1).1
    where
      write : Act (Unit {0})
      write w =
          if user_exists_or_null e.actor_user_id w
          then (got tt, record w { audits = e ∷ w.audits })
          else (fails failed, w)

  -- `requireOrgRole`, with what the handler does when it returns true
  unfoldable pub require_org_role {ℓ} : {A : Type ℓ} → User → Text → OrgRole → Handler A → Handler A
  unfolding get_membership_role
  require_org_role actor org required next w =
      if actor.is_admin
      then next w
      else on (get_membership_role d org actor.id w)
          (λ role w. if can_manage role required then next w else reply_error 403 "forbidden" w)
          (λ e w. if is_not_found e then reply_error 403 "forbidden" w else internal_error w)

pub problem-ne_json {ℓ} :
    {A : Type ℓ} {status status' : ℕ} {code : String} {a : A} {w w' : World}
    → ¬ (◌≡◌ {A = Reply A × World} (problem status code, w) (json status' a, w'))
problem-ne_json {A = A} h = absurd_reply (ap (λ r. r.0) h)
  where
    absurd_reply : {s t : ℕ} {c : String} {a : A} → ¬ (◌≡◌ {A = Reply A} (problem s c) (json t a))
    absurd_reply q = cc
