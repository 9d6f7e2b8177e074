-- ===== src/Tests/Setup.antt =====
-- The theorems on the wizard's login, on its step, and on what it does after it is done.
use selfu.Base.{
  ℕ, ◌+◌, ◌≡◌, inl, inr, refl, Bool, true, false, Option, none, some, List, [], ◌∷◌, Text, text,
  ◌==◌, is_empty, ok, arith,
}
use selfu.Base.{◌≢◌}
use selfu.Domain.Entities.{DomainRow}
use selfu.Store.State.{World}
use selfu.Store.Exec.{Deps}
use selfu.Store.Setup.{onboarded, stored_provider}
use selfu.HttpApi.{Reply, json}
use selfu.HttpApi.Setup.Limiter.{client_key, allow}
use selfu.HttpApi.Setup.Login.{LoggedIn, setup_login}
use selfu.HttpApi.Setup.Login.Guesses.{setup_login-json}
use selfu.HttpApi.Setup.Verify.Pending.{IsPending}
use selfu.HttpApi.Setup.Create.{SetupConfig, SetupRequest, Prepared, create_setup}
use selfu.HttpApi.Setup.Create.Promise.{create_setup-IsPending}
use selfu.HttpApi.Setup.Closed.{SetupEvent, serve_setups, serve_setups-closed, settled}
use selfu.Tests.Fixtures.{steady, start, ada}
use selfu.Tests.Wizard.{login_config, laptop, waiting}

abbrev vacant : World
vacant = record start { users = [] }

abbrev logged_in : Reply LoggedIn × World
logged_in = setup_login steady login_config laptop (some (text "correct")) vacant

abbrev welcome : LoggedIn
welcome = record {
  email = text "admin@selfu.local";
  admin_granted = true;
  cookie = 0 ∷ b'.' ∷ b'k' ∷ [];
}

logs_in : logged_in ≡ (json 200 welcome, logged_in.1)
unfolding setup_login selfu.Store.Setup.get_installation allow ◌==◌
    selfu.Store.Users.upsert_from_oidc selfu.Domain.Entities.new_user
    selfu.Domain.Entities.looks_like_email selfu.Domain.Entities.positions_ok selfu.Base.index_byte
    selfu.Base.last_index_byte selfu.Domain.Entities.domain_part_ok selfu.Base.contains_any
    selfu.Base.contains selfu.Store.Exec.Tables.exists selfu.Store.Exec.Tables.find selfu.Auth.issue
logs_in = refl

setup_login-json_example :
    (onboarded vacant.installation ≡ false)
    × (is_empty login_config.bootstrap_password ≡ false)
    × (some (text "correct") ≡ some login_config.bootstrap_password)
    × (allow vacant.login_fails 100 (client_key login_config.split_host_port laptop) ≡ true)
setup_login-json_example =
    setup_login-json steady login_config laptop (some (text "correct")) vacant logged_in.1 200
      welcome logs_in

abbrev setup_config : SetupConfig
setup_config = record {
  resolve_zone = λ n fqdn token. some (text "zone");
  zone_usable = λ n token zone. true;
  marshal_config = λ token zone. token;
  aead = record {
    nonce_size = 1;
    gcm_seal = λ key nonce plain. plain;
    gcm_open = λ key nonce sealed. some sealed;
    sha256 = λ s. s;
  };
  encryption_key = text "k";
}

abbrev request : SetupRequest
request = record {
  fqdn = text "Y.org";
  provider = text "cloudflare";
  api_token = text "t";
  zone_id = [];
}

abbrev prepared : Reply Prepared × World
prepared = create_setup steady setup_config ada (some request) start

abbrev row : DomainRow
row = record {
  id = 2 ∷ [];
  organization_id = 0 ∷ [];
  fqdn = text "y.org";
  status = selfu.Domain.Statuses.DomainStatus.pending;
  verification_method = text "dns_txt";
  verification_token = 3 ∷ [];
  verified_at = none;
  web_enabled = false;
  mail_enabled = false;
}

abbrev answer : Prepared
answer = record {
  created = record {
    created = row;
    record_name = text "_platform-verification.y.org";
    record_value = text "platform=\u{3}";
    automated = true;
  };
  provider = text "cloudflare";
}

prepares : prepared ≡ (json 201 answer, prepared.1)
unfolding create_setup selfu.Store.Setup.get_installation ◌==◌ selfu.Domain.Names.normalize_domain
    selfu.Base.trim_suffix selfu.Base.trim_space selfu.Domain.Names.check_labels selfu.Base.split
    selfu.Base.to_lower selfu.Domain.Names.validate_local_domain
    selfu.Domain.Entities.new_organization selfu.Store.Organizations.create_organization
    selfu.Store.Exec.Tables.exists selfu.Domain.Slugs.slugify selfu.Base.trim_byte
    selfu.Domain.Slugs.slug_loop selfu.Store.Organizations.set_membership
    selfu.Domain.Entities.new_domain selfu.Domain.Names.check_bytes selfu.Domain.Names.check_label
    selfu.Domain.Names.is_alnum selfu.Domain.Roles.default_role selfu.Domain.Roles.valid
    selfu.HttpApi.audit selfu.Store.Domains.create_domain selfu.Store.Domains.insert_domain
    selfu.Store.Mail.user_exists_or_null selfu.Store.Organizations.insert_organization
    selfu.Store.Organizations.pair_exists selfu.Store.Organizations.upsert_membership
    selfu.Store.Setup.set_installation selfu.Store.Setup.set_installation_primary_domain
    selfu.Store.Setup.set_installation_provider stored_provider
    selfu.HttpApi.Setup.Create.new_access_provider selfu.HttpApi.Sealing.encrypt_secret
    selfu.Store.Domains.set_domains
prepares = refl

create_setup-IsPending_example :
    (ada.is_admin ≡ true)
    × (onboarded start.installation ≡ false)
    × IsPending answer.created.record_name answer.created.record_value prepared.1
    × ((r : SetupRequest) × (some request ≡ some r)
        × (answer.provider ≡ r.provider)
        × (stored_provider r.provider ≡ true)
        × (r.provider ≢ text "route53"))
create_setup-IsPending_example =
    create_setup-IsPending steady setup_config ada (λ n. refl) (some request) start prepared.1 201
      answer prepares

abbrev finished : World
finished = record waiting { installation = record waiting.installation { onboarded_at = some 90 } }

abbrev requests : List SetupEvent
requests =
    SetupEvent.login laptop (some (text "correct"))
    ∷ SetupEvent.poll
    ∷ SetupEvent.create ada (some request)
    ∷ SetupEvent.verify ada
    ∷ []

serve_setups-closed_example :
    settled (serve_setups steady login_config setup_config requests finished) ≡ settled finished
serve_setups-closed_example =
    serve_setups-closed steady login_config setup_config requests finished refl
