-- ===== src/HttpApi/Setup/Verify.antt =====
-- The verification of the primary domain, by hand and in the background: `runVerifySetup`,
-- `pollVerificationOnce` and `StartVerificationPoller` of internal/httpapi/verify_poll.go, and
-- `verifySetup` of internal/httpapi/setup_handlers.go. A payload with an "error" is a `problem`.
-- The loop of the poller is a run over the times of its ticks, up to the end of its context.
pub mod Pending
pub mod Steps
pub mod Poller
pub mod Sound
use selfu.Base.{
  ℕ, Bool, true, false, Option, none, some, List, [], ◌∷◌, ◌++◌, Text, text, String, ◌==◌,
  if◌then◌else◌, any, is_empty,
}
use selfu.Domain.Statuses.{DomainStatus, is_verified}
use selfu.Domain.Entities.{User, DomainRow}
use selfu.Store.State.{World, PollNote}
use selfu.Store.Exec.{Deps, on}
use selfu.Store.Domains.{get_domain_by_id, set_domain_status, log_verification}
use selfu.Store.Setup.{get_installation, set_installation_onboarded, onboarded}
use selfu.HttpApi.{Reply, problem, json, Handler, reply_error, reply_json, internal_error, audit}
use selfu.HttpApi.Ownership.{verify_record_name, token_txt_value, txt_lookup}

pub record SetupVerdict : Type 0 where
  pub status : DomainStatus
  pub onboarded : Bool
  pub hint : Option Text

-- `string(d.Status)`
abbrev pub status_word : DomainStatus → String
status_word DomainStatus.pending = "pending"
status_word DomainStatus.verification_required = "verification_required"
status_word DomainStatus.verified = "verified"
status_word DomainStatus.suspended = "suspended"

abbrev pub done : SetupVerdict
done = record { status = DomainStatus.verified; onboarded = true; hint = none }

unfoldable pub record_hint : DomainRow → Text
unfolding verify_record_name token_txt_value
record_hint x =
    text "set TXT "
    ++ (verify_record_name x.fqdn ++ (text " to " ++ token_txt_value x.verification_token))

-- `if actorID != "" { actor = &actorID }`
unfoldable pub actor_of : Text → Option Text
actor_of actor_id = if is_empty actor_id then none else some actor_id

module _ (d : Deps) (actor_id : Text) where
  -- The part of `runVerifySetup` after the record was found
  unfoldable pub complete : DomainRow → Handler SetupVerdict
  unfolding actor_of
  complete x w =
      on (set_domain_status d x.id DomainStatus.verified (some w.now) w)
        (λ u w.
          on
            (set_installation_onboarded d w.now
              (log_verification d x.id x.verification_method (text "verified") true w).1)
            (λ u w. reply_json 200 done (
              audit d
                (record {
                  actor_user_id = actor_of actor_id;
                  action = "setup.onboarded";
                  resource_type = "domain";
                  resource_id = x.id;
                })
                w))
            (λ e w. internal_error w))
        (λ e w. internal_error w)

  -- The part that judges what the lookup answered
  unfoldable pub appraise : DomainRow → List Text → Handler SetupVerdict
  unfolding complete record_hint
  appraise x txts w =
      if any (λ t. t == token_txt_value x.verification_token) txts
      then complete x w
      else reply_json 200
          (record { status = x.status; onboarded = false; hint = some (record_hint x) })
          (log_verification d x.id x.verification_method (text "record not found") false w).1

  -- The part that asks for the record
  unfoldable pub seek : DomainRow → Handler SetupVerdict
  unfolding appraise txt_lookup
  seek x w = on (txt_lookup d (verify_record_name x.fqdn) w) (appraise x) (λ e w.
      reply_error 422 "lookup_failed"
        (log_verification d x.id x.verification_method (text "lookup failed") false w).1)

  unfoldable pub settle : DomainRow → Handler SetupVerdict
  unfolding seek
  settle x w =
      if is_verified x.status
      then on (set_installation_onboarded d w.now w) (λ u w. reply_json 200 done w)
          (λ e w. internal_error w)
      else if d.has_txt_lookup
      then seek x w
      else internal_error w

  unfoldable pub run_verify_setup : Handler SetupVerdict
  unfolding settle
  run_verify_setup w =
      on (get_installation d w)
        (λ inst w.
          if onboarded inst
          then reply_error 409 "already_onboarded" w
          else if is_empty inst.primary_domain_id
          then reply_error 409 "no_primary_domain" w
          else on (get_domain_by_id d inst.primary_domain_id w) settle
              (λ e w. reply_error 404 "not_found" w))
        (λ e w. internal_error w)

unfoldable pub note_verify_poll : PollNote → World → World
note_verify_poll note w = record w { last_verify = some (w.now, note) }

unfoldable pub note_of : Reply SetupVerdict → PollNote
note_of (problem status code) = PollNote.attempt status code none
note_of (json status v) = PollNote.attempt status (status_word v.status) v.hint

-- `payloadBool(payload, "onboarded")`
abbrev pub is_onboarded : Reply SetupVerdict → Bool
is_onboarded (problem status code) = false
is_onboarded (json status v) = v.onboarded

module _ (d : Deps) where
  -- `verifySetup`
  unfoldable pub verify_setup : User → Handler SetupVerdict
  unfolding run_verify_setup
  verify_setup admin w =
      if admin.is_admin then run_verify_setup d admin.id w else reply_error 403 "forbidden" w

  unfoldable pub poll_verification_once : World → Bool × World
  unfolding run_verify_setup note_verify_poll note_of
  poll_verification_once w =
      on (get_installation d w)
        (λ inst w.
          if onboarded inst
          then (true, w)
          else if is_empty inst.primary_domain_id
          then (false, w)
          else let (reply, w) = run_verify_setup d [] w in
            (is_onboarded reply, note_verify_poll (note_of reply) w))
        (λ e w. (false, note_verify_poll PollNote.lookup_failed w))

  -- The loop over the ticks: whether it returned by itself, and the state then
  unfoldable pub verification_poller : List ℕ → World → Bool × World
  unfolding poll_verification_once
  verification_poller [] w = (false, w)
  verification_poller (at ∷ ticks) w =
      let (stop, after) = poll_verification_once (record w { now = at }) in
      let rest = verification_poller ticks after in if stop then (true, after) else rest
