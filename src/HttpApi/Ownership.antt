-- ===== src/HttpApi/Ownership.antt =====
-- Domains and hostnames: internal/httpapi/domain_handlers.go, and the record names of
-- internal/dns/dns.go. `txt_records n name` is what the lookup of TXT records answers at the n-th call.
pub mod Proof
pub mod Judged
use selfu.Base.{
  ℕ, Bool, true, false, not, ◌&&◌, Option, none, some, List, [], ◌∷◌, ◌++◌, Text, text, ◌==◌,
  if◌then◌else◌, is_empty, any, Checked, ok, err, trim_suffix,
}
use selfu.Domain.Roles.{OrgRole}
use selfu.Domain.Statuses.{DomainStatus, is_verified}
use selfu.Domain.Names.{normalize_domain, hostname_within_domain}
use selfu.Domain.Entities.{User, DomainRow, new_domain}
use selfu.Store.State.{World, AuditEvent, Effect, Hostname}
use selfu.Store.Exec.{StoreError, has_dependents, Result, got, fails, Deps, Act, call, on}
use selfu.Store.Domains.{
  create_domain, get_domain_by_id, set_domain_status, log_verification, delete_domain, add_hostname,
}
use selfu.HttpApi.{
  Reply, problem, json, Handler, reply_error, reply_json, internal_error, with_body, is_not_found,
  is_conflict, audit, require_org_role,
}
use selfu.HttpApi.Seams.{record_effect}

unfoldable pub verify_record_name : Text → Text
verify_record_name domain = text "_platform-verification." ++ trim_suffix domain (text ".")

unfoldable pub token_txt_value : Text → Text
token_txt_value token = text "platform=" ++ token

abbrev pub is_dependents : StoreError → Bool
is_dependents StoreError.has_dependents = true
is_dependents _ = false

pub record CreatedDomain : Type 0 where
  pub created : DomainRow
  pub record_name : Text
  pub record_value : Text
  pub automated : Bool

-- The replies of `verifyDomain`: the fields `verified` and `hint` are there only if the record was not
-- found.
pub record Verdict : Type 0 where
  pub status : DomainStatus
  pub verified : Option Bool
  pub hint : Option Text

unfoldable pub missing_verdict : DomainRow → Verdict
unfolding verify_record_name token_txt_value
missing_verdict x = record {
  status = x.status;
  verified = some false;
  hint = some (
      text "set TXT "
      ++ (verify_record_name x.fqdn ++ (text " to " ++ token_txt_value x.verification_token)));
}

module _ (d : Deps) where
  unfoldable pub set_txt : Text → Text → Act (Unit {0})
  unfolding record_effect
  set_txt name value = call d (λ w. (got tt, record_effect (Effect.set_txt name value) w))

  unfoldable pub txt_lookup : Text → Act (List Text)
  txt_lookup name w = call d (λ w'. (got (d.txt_records w.calls name), w')) w

module _ (d : Deps) (actor : User) where
  -- `createDomain`
  unfoldable pub register_domain : Text → Option Text → Handler CreatedDomain
  unfolding require_org_role set_txt verify_record_name token_txt_value
  register_domain org body =
      require_org_role d actor org OrgRole.admin
        (with_body body (λ fqdn w. go (new_domain d.to_ascii org fqdn) w))
    where
      finish : DomainRow → Bool → World → Reply CreatedDomain × World
      finish x automated w =
          reply_json 201
            (record {
              created = x;
              record_name = verify_record_name x.fqdn;
              record_value = token_txt_value x.verification_token;
              automated = automated;
            })
            (audit d
              (record {
                actor_user_id = some actor.id;
                action = "domain.created";
                resource_type = "domain";
                resource_id = x.id;
              })
              w)

      publish : DomainRow → World → Reply CreatedDomain × World
      publish x w =
          if d.has_dns_provider
          then on (set_txt d (verify_record_name x.fqdn) (token_txt_value x.verification_token) w)
              (λ u w. finish x true w) (λ e w. finish x false w)
          else finish x false w

      go : Checked DomainRow → World → Reply CreatedDomain × World
      go (err e) w = reply_error 400 "invalid_request" w
      go (ok x) w =
          on (create_domain d x w) publish
            (λ e w. if is_conflict e then reply_error 409 "conflict" w else internal_error w)

  -- The part of `verifyDomain` after the lookup
  unfoldable pub judge : DomainRow → List Text → Handler Verdict
  unfolding token_txt_value missing_verdict
  judge x txts w =
      if any (λ t. t == token_txt_value x.verification_token) txts
      then on (set_domain_status d x.id DomainStatus.verified (some w.now) w)
          (λ u w.
            reply_json 200 (record { status = DomainStatus.verified; verified = none; hint = none })
              (audit d
                (record {
                  actor_user_id = some actor.id;
                  action = "domain.verified";
                  resource_type = "domain";
                  resource_id = x.id;
                })
                (log_verification d x.id x.verification_method (text "verified") true w).1))
          (λ e w. internal_error w)
      else reply_json 200 (missing_verdict x)
          (log_verification d x.id x.verification_method (text "record not found") false w).1

  -- The part of `verifyDomain` that asks for the record
  unfoldable pub look_up : DomainRow → Handler Verdict
  unfolding txt_lookup judge verify_record_name
  look_up x w =
      if d.has_txt_lookup
      then on (txt_lookup d (verify_record_name x.fqdn) w) (λ txts w. judge x txts w)
          (λ e w.
            reply_error 422 "lookup_failed"
              (log_verification d x.id x.verification_method (text "lookup failed") false w).1)
      else reply_error 500 "internal_error" w

  -- `verifyDomain`
  unfoldable pub verify_domain : Text → Handler Verdict
  unfolding require_org_role look_up
  verify_domain id w =
      on (get_domain_by_id d id w)
        (λ x w. require_org_role d actor x.organization_id OrgRole.admin (look_up x) w)
        (λ e w. reply_error 404 "not_found" w)

  -- `deleteDomain`
  unfoldable pub remove_domain : Text → Handler (Unit {0})
  unfolding require_org_role
  remove_domain id w =
      on (get_domain_by_id d id w)
        (λ x w. require_org_role d actor x.organization_id OrgRole.admin delete w)
        (λ e w. reply_error 404 "not_found" w)
    where
      delete : World → Reply (Unit {0}) × World
      delete w =
          on (delete_domain d id w)
            (λ u w. reply_json 200 tt (
              audit d
                (record {
                  actor_user_id = some actor.id;
                  action = "domain.deleted";
                  resource_type = "domain";
                  resource_id = id;
                })
                w))
            (λ e w.
              if is_dependents e
              then reply_error 409 "dependents" w
              else if is_not_found e
              then reply_error 404 "not_found" w
              else internal_error w)

  unfoldable pub bind : DomainRow → Checked Text → Handler Hostname
  bind x (err e) w = reply_error 400 "invalid_request" w
  bind x (ok norm) w =
      on (add_hostname d (record { id = []; domain_id = x.id; hostname = norm }) w)
        (λ n w. reply_json 201 n (
          audit d
            (record {
              actor_user_id = some actor.id;
              action = "hostname.created";
              resource_type = "hostname";
              resource_id = n.id;
            })
            w))
        (λ e w. if is_conflict e then reply_error 409 "conflict" w else internal_error w)

  -- The checks of `addHostname` on the request
  unfoldable pub checked_hostname : DomainRow → Text → Handler Hostname
  unfolding bind
  checked_hostname x hostname w =
      if is_empty hostname
      then reply_error 400 "invalid_request" w
      else if is_verified x.status
      then if hostname_within_domain hostname x.fqdn
        then bind x (normalize_domain d.to_ascii hostname) w
        else reply_error 400 "not_within_domain" w
      else reply_error 409 "domain_not_verified" w

  -- `addHostname`
  unfoldable pub bind_hostname : Text → Option Text → Handler Hostname
  unfolding require_org_role checked_hostname
  bind_hostname id body w =
      on (get_domain_by_id d id w)
        (λ x w.
          require_org_role d actor x.organization_id OrgRole.admin
            (with_body body (λ hostname w. checked_hostname x hostname w)) w)
        (λ e w. reply_error 404 "not_found" w)
