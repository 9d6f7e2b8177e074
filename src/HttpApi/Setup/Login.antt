-- ===== src/HttpApi/Setup/Login.antt =====
-- The login with the bootstrap password: `setupLogin` of internal/httpapi/setup_handlers.go. A
-- request that cannot be decoded is `none`; the cookie that is set is part of the reply.
pub mod Guesses
use selfu.Base.{
  Bool, true, false, Option, none, some, [], ◌++◌, Text, text, ◌==◌, if◌then◌else◌, is_empty,
}
use selfu.Domain.Names.{validate_local_domain}
use selfu.Domain.Entities.{User}
use selfu.Store.State.{World, LoginFails, Installation, AuditEvent}
use selfu.Store.Exec.{Deps, on}
use selfu.Store.Users.{upsert_from_oidc}
use selfu.Store.Setup.{get_installation, onboarded}
use selfu.Auth.{Codec, SessionStore, issue}
use selfu.HttpApi.{Reply, Handler, reply_error, reply_json, internal_error, with_body, audit}
use selfu.HttpApi.Setup.Limiter.{Limiter, Client, client_key, allow, record_fail, reset}

-- The settings that the login reads; `split_host_port` is net.SplitHostPort.
pub record LoginConfig : Type 0 where
  pub bootstrap_password : Text
  pub bootstrap_email : Text
  pub split_host_port : Text → Option Text
  pub codec : Codec
  pub sessions : SessionStore

pub record LoggedIn : Type 0 where
  pub email : Text
  pub admin_granted : Bool
  pub cookie : Text

unfoldable pub set_login_fails : Limiter → World → World
set_login_fails fails w = record w { login_fails = fails }

unfoldable pub bootstrap_address : LoginConfig → Installation → Text
unfolding validate_local_domain
bootstrap_address c inst =
    if is_empty c.bootstrap_email
    then text "admin@" ++ validate_local_domain inst.local_domain
    else c.bootstrap_email

module _ (d : Deps) (c : LoginConfig) where
  -- What follows a right password
  unfoldable pub sign_in : Installation → Text → Handler LoggedIn
  unfolding set_login_fails bootstrap_address
  sign_in inst key w =
      on
        (upsert_from_oidc d (text "local-bootstrap") (text "bootstrap") (bootstrap_address c inst)
          (text "Bootstrap Administrator") (set_login_fails (reset key w.login_fails) w))
        (λ (u, created, granted) w.
          reply_json 200
            (record {
              email = u.email;
              admin_granted = granted;
              cookie = issue c.codec c.sessions w.now u.id;
            })
            (audit d
              (record {
                actor_user_id = some u.id;
                action = "auth.login.succeeded";
                resource_type = "user";
                resource_id = u.id;
              })
              w))
        (λ e w. internal_error w)

  -- What follows a wrong one
  unfoldable pub deny : Text → Handler LoggedIn
  unfolding set_login_fails
  deny key w = reply_error 401 "unauthorized" (
      audit d
        (record {
          actor_user_id = none;
          action = "auth.bootstrap_login.failed";
          resource_type = "installation";
          resource_id = [];
        })
        (set_login_fails (record_fail w.login_fails w.now key) w))

  unfoldable pub guess : Installation → Text → Text → Handler LoggedIn
  unfolding sign_in deny
  guess inst key password w =
      if allow w.login_fails w.now key
      then if c.bootstrap_password == password then sign_in inst key w else deny key w
      else reply_error 429 "rate_limited" w

  -- `setupLogin`
  unfoldable pub setup_login : Client → Option Text → Handler LoggedIn
  unfolding guess
  setup_login from body w =
      on (get_installation d w)
        (λ inst w.
          if onboarded inst
          then reply_error 403 "already_onboarded" w
          else if is_empty c.bootstrap_password
          then reply_error 503 "not_configured" w
          else with_body body (guess inst (client_key c.split_host_port from)) w)
        (λ e w. internal_error w)
