-- ===== src/Tests/Fixtures.antt =====
-- A small installation: one organization with an owner, an admin of the platform, an invited user
-- and a domain, and surroundings in which no call fails.
use selfu.Base.{Bool, true, false, none, some, [], ◌∷◌, Text, text, ok}
use selfu.Domain.Roles.{OrgRole}
use selfu.Domain.Statuses.{
  UserStatus, DomainStatus, MailIdentityStatus, CredentialStatus, ExternalStatus,
}
use selfu.Domain.Entities.{User, Organization, DomainRow}
use selfu.Store.State.{
  World, Membership, Invite, ExternalResource, ResourceType, MailIdentity, MailCredential,
}
use selfu.Store.Exec.{Deps}

abbrev pub steady : Deps
steady = record {
  fails = λ n. false;
  random = λ n. n ∷ [];
  sha256_hex = λ s. b'#' ∷ s;
  to_ascii = λ s. ok s;
  provider_name = text "https://id.test/";
  has_identity = true;
  external_pk = λ s. b'7' ∷ [];
  has_password_setter = true;
  has_chasquid = true;
  has_mail_provision = true;
  has_dns_provider = false;
  has_txt_lookup = true;
  txt_records = λ n name. text "v=spf1" ∷ text "platform=tok" ∷ [];
  user_exists = λ n s. true;
  dkim = λ s. (text "sel", text "rec");
}

abbrev user : Text → Text → Bool → User
user id email is_admin = record {
  id = id;
  email = email;
  display_name = [];
  status = UserStatus.active;
  is_admin = is_admin;
  auth_provider = text "https://id.test/";
  auth_identity_id = id;
}

abbrev pub ada : User
ada = user (text "ada") (text "ada@x.org") true

abbrev pub bob : User
bob = user (text "bob") (text "bob@x.org") false

abbrev pub eve : User
eve = user (text "eve") (text "eve@x.org") true

abbrev pub acme : Organization
acme = record { id = text "o1"; name = text "Acme"; slug = text "acme" }

abbrev pub owner_row : Membership
owner_row = record {
  id = text "m1";
  organization_id = text "o1";
  user_id = text "eve";
  role = OrgRole.owner;
}

abbrev pub invite : Invite
invite = record {
  id = text "i1";
  organization_id = text "o1";
  user_id = text "bob";
  token_hash = text "#secret";
  role = OrgRole.member;
  invited_by = text "ada";
  expires_at = 200;
  accepted_at = none;
}

abbrev pub linked : ExternalResource
linked = record {
  id = text "x1";
  resource_type = ResourceType.authentik_user;
  platform_object_id = text "bob";
  provider = text "https://id.test/";
  external_id = text "7";
  observed_hash = [];
  status = ExternalStatus.active;
  last_error = [];
}

abbrev pub site : DomainRow
site = record {
  id = text "d1";
  organization_id = text "o1";
  fqdn = text "x.org";
  status = DomainStatus.verified;
  verification_method = text "dns_txt";
  verification_token = text "tok";
  verified_at = some 50;
  web_enabled = false;
  mail_enabled = false;
}

abbrev pub mailbox : MailIdentity
mailbox = record {
  id = text "e1";
  organization_id = text "o1";
  user_id = some (text "bob");
  domain_id = text "d1";
  local_part = text "bob";
  address = text "bob@x.org";
  chasquid_username = text "bob@x.org";
  status = MailIdentityStatus.active;
}

abbrev pub old_secret : MailCredential
old_secret = record {
  id = text "c1";
  mail_identity_id = text "e1";
  secret_fingerprint = text "#old";
  status = CredentialStatus.active;
}

abbrev pub start : World
start = record {
  now = 100;
  calls = 0;
  draws = 0;
  users = ada ∷ bob ∷ eve ∷ [];
  organizations = acme ∷ [];
  memberships = owner_row ∷ [];
  groups = [];
  group_memberships = [];
  externals = linked ∷ [];
  invites = invite ∷ [];
  installation = record {
    local_domain = text "selfu.local";
    primary_domain_id = [];
    dns_provider = text "manual";
    access_provider = text "manual";
    provider_config = [];
    onboarded_at = none;
  };
  domains = site ∷ [];
  hostnames = [];
  verifications = [];
  mail_domains = [];
  mail_identities = mailbox ∷ [];
  mail_credentials = old_secret ∷ [];
  mail_policies = [];
  mail_aliases = [];
  audits = [];
  login_fails = λ key. none;
  last_verify = none;
  effects = [];
}
