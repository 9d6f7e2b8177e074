-- ===== src/HttpApi/Setup/Create.antt =====
-- The step of the wizard that registers the primary domain: `createSetup` of
-- internal/httpapi/setup_handlers.go, and `New` of internal/access/access.go.
pub mod Stored
pub mod Ending
pub mod Promise
use selfu.Base.{
  ℕ, Bool, true, false, ◌&&◌, Option, none, some, Text, text, ◌==◌, if◌then◌else◌, is_empty,
  trim_space, Checked, ok, err,
}
use selfu.Domain.Roles.{OrgRole}
use selfu.Domain.Names.{normalize_domain, validate_local_domain}
use selfu.Domain.Entities.{User, Organization, DomainRow, new_organization, new_domain}
use selfu.Store.State.{World, AuditEvent, Installation}
use selfu.Store.Exec.{failed, got, fails, Deps, Act, call, found, on}
use selfu.Store.Organizations.{create_organization, set_membership}
use selfu.Store.Domains.{create_domain}
use selfu.Store.Setup.{
  get_installation, set_installation_provider, set_installation_primary_domain, onboarded,
}
use selfu.HttpApi.{
  Reply, Handler, reply_error, reply_json, internal_error, with_body, is_conflict, audit,
}
use selfu.HttpApi.Ownership.{CreatedDomain, verify_record_name, token_txt_value, set_txt}
use selfu.HttpApi.Sealing.{Aead, encrypt_secret}

pub data AccessProvider : Type 0 where
  manual cloudflare route53 : AccessProvider

-- `access.New`; `none` is `ErrUnknownProvider`.
unfoldable pub new_access_provider : Text → Option AccessProvider
new_access_provider name =
    if name == text "manual"
    then some AccessProvider.manual
    else if name == text "cloudflare"
    then some AccessProvider.cloudflare
    else if name == text "route53"
    then some AccessProvider.route53
    else none

-- `Name` of the provider, and of its DNS surface
unfoldable pub access_provider_name : AccessProvider → Text
access_provider_name AccessProvider.manual = text "manual"
access_provider_name AccessProvider.cloudflare = text "cloudflare"
access_provider_name AccessProvider.route53 = text "route53"

pub record SetupRequest : Type 0 where
  pub fqdn : Text
  pub provider : Text
  pub api_token : Text
  pub zone_id : Text

-- What the step is given: the lookup of a zone and the probe of one, at a call number, the JSON text
-- of the credentials, and what seals them.
pub record SetupConfig : Type 0 where
  pub resolve_zone : ℕ → Text → Text → Option Text
  pub zone_usable : ℕ → Text → Text → Bool
  pub marshal_config : Text → Text → Text
  pub aead : Aead
  pub encryption_key : Text

pub record Prepared : Type 0 where
  pub created : CreatedDomain
  pub provider : Text

module _ (d : Deps) (c : SetupConfig) (admin : User) where
  unfoldable pub announce : Text → CreatedDomain → Handler Prepared
  announce name created w =
      reply_json 201 (record { created = created; provider = name })
        (audit d
          (record {
            actor_user_id = some admin.id;
            action = "setup.primary_domain";
            resource_type = "domain";
            resource_id = created.created.id;
          })
          w)

  -- From the sealing of the credentials on
  unfoldable pub keep_provider : AccessProvider → Text → Text → CreatedDomain → Handler Prepared
  unfolding announce access_provider_name encrypt_secret
  keep_provider p token zone created w =
      let (sealed, w) = encrypt_secret c.aead d c.encryption_key (c.marshal_config token zone) w in
      on (set_installation_provider d (access_provider_name p) (access_provider_name p) sealed w)
        (λ u w.
          on (set_installation_primary_domain d created.created.id w)
            (λ u w. announce (access_provider_name p) created w) (λ e w. internal_error w))
        (λ e w. internal_error w)

  -- The record of the created domain; a failure to publish it is only reported.
  unfoldable pub publish_record : AccessProvider → Text → Text → DomainRow → Handler Prepared
  unfolding keep_provider verify_record_name token_txt_value set_txt
  publish_record p token zone x w =
      on (set_txt d (verify_record_name x.fqdn) (token_txt_value x.verification_token) w)
        (λ u w. keep_provider p token zone (shown true) w)
        (λ e w. keep_provider p token zone (shown false) w)
    where
      shown : Bool → CreatedDomain
      shown automated = record {
        created = x;
        record_name = verify_record_name x.fqdn;
        record_value = token_txt_value x.verification_token;
        automated = automated;
      }

  unfoldable pub register_primary :
      AccessProvider → Text → Text → Checked DomainRow → Handler Prepared
  unfolding publish_record
  register_primary p token zone (err e) w = internal_error w
  register_primary p token zone (ok x) w =
      on (create_domain d x w) (publish_record p token zone)
        (λ e w. if is_conflict e then reply_error 409 "conflict" w else internal_error w)

  -- From the creation of the organization on
  unfoldable pub found_organization :
      AccessProvider → Text → Text → Text → Checked Organization → Handler Prepared
  unfolding register_primary
  found_organization p token zone fqdn (err e) w = reply_error 400 "invalid_request" w
  found_organization p token zone fqdn (ok o) w =
      on (create_organization d o w)
        (λ org w.
          on (set_membership d org.id admin.id OrgRole.owner w)
            (λ m w. register_primary p token zone (new_domain d.to_ascii org.id fqdn) w)
            (λ e w. internal_error w))
        (λ e w. if is_conflict e then reply_error 409 "conflict" w else internal_error w)

  -- The probe of the zone
  unfoldable pub probe : Text → Text → Act (Unit {0})
  probe token zone w =
      call d (λ w'. if c.zone_usable w.calls token zone then (got tt, w') else (fails failed, w')) w

  unfoldable pub probe_zone : Text → Text → Text → Handler Prepared
  unfolding found_organization probe
  probe_zone token zone fqdn w =
      on (probe token zone w)
        (λ u w.
          found_organization AccessProvider.cloudflare token zone fqdn (new_organization fqdn) w)
        (λ e w. reply_error 422 "provider_unavailable" w)

  unfoldable pub resolve : Text → Text → Act Text
  resolve fqdn token w = call d (λ w'. (found (c.resolve_zone w.calls fqdn token), w')) w

  -- The checks for Cloudflare, which look the zone up if it is not given
  unfoldable pub with_zone : Text → Text → Text → Handler Prepared
  unfolding probe_zone resolve
  with_zone token zone fqdn w =
      if is_empty (trim_space token)
      then reply_error 400 "invalid_request" w
      else if is_empty (trim_space zone)
      then on (resolve fqdn token w) (λ resolved w. probe_zone token resolved fqdn w)
          (λ e w. reply_error 400 "zone_not_found" w)
      else probe_zone token zone fqdn w

  unfoldable pub by_provider : AccessProvider → SetupRequest → Text → Handler Prepared
  unfolding with_zone found_organization
  by_provider AccessProvider.cloudflare r fqdn w = with_zone r.api_token r.zone_id fqdn w
  by_provider AccessProvider.manual r fqdn w =
      found_organization AccessProvider.manual r.api_token r.zone_id fqdn (new_organization fqdn) w
  by_provider AccessProvider.route53 r fqdn w =
      found_organization AccessProvider.route53 r.api_token r.zone_id fqdn (new_organization fqdn) w

  unfoldable pub check_primary :
      Installation → AccessProvider → SetupRequest → Checked Text → Handler Prepared
  unfolding by_provider
  check_primary inst p r (err e) w = reply_error 400 "invalid_request" w
  check_primary inst p r (ok fqdn) w =
      if fqdn == validate_local_domain inst.local_domain
      then reply_error 400 "invalid_request" w
      else by_provider p r fqdn w

  unfoldable pub check_provider :
      Installation → SetupRequest → Option AccessProvider → Handler Prepared
  unfolding check_primary
  check_provider inst r none w = reply_error 400 "invalid_request" w
  check_provider inst r (some p) w = check_primary inst p r (normalize_domain d.to_ascii r.fqdn) w

  -- `createSetup`
  unfoldable pub create_setup : Option SetupRequest → Handler Prepared
  unfolding check_provider new_access_provider
  create_setup body w =
      if admin.is_admin
      then on (get_installation d w)
          (λ inst w.
            if onboarded inst
            then reply_error 409 "already_onboarded" w
            else with_body body (λ r w. check_provider inst r (new_access_provider r.provider) w) w)
          (λ e w. internal_error w)
      else reply_error 403 "forbidden" w
