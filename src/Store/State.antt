-- ===== src/Store/State.antt =====
-- The state that the platform works on: the tables of the database, what the process remembers of
-- logins and of its attempts to verify the primary domain, and what has been done to the systems
-- outside. Row types are those of internal/domain and internal/store; the columns created_at and
-- updated_at, which no decision reads, are left out.
use selfu.Base.{ℕ, Bool, Option, List, Text, String}
use selfu.Domain.Roles.{OrgRole}
use selfu.Domain.Statuses.{MailDomainStatus, MailIdentityStatus, CredentialStatus, ExternalStatus}
use selfu.Domain.Entities.{User, Organization, Group, DomainRow}

pub record Membership : Type 0 where
  pub id : Text
  pub organization_id : Text
  pub user_id : Text
  pub role : OrgRole

pub record GroupMembership : Type 0 where
  pub group_id : Text
  pub user_id : Text

pub data ResourceType : Type 0 where
  authentik_user authentik_group authentik_application authentik_provider : ResourceType

pub record ExternalResource : Type 0 where
  pub id : Text
  pub resource_type : ResourceType
  pub platform_object_id : Text
  pub provider : Text
  pub external_id : Text
  pub observed_hash : Text
  pub status : ExternalStatus
  pub last_error : Text

pub record Invite : Type 0 where
  pub id : Text
  pub organization_id : Text
  pub user_id : Text
  pub token_hash : Text
  pub role : OrgRole
  pub invited_by : Text
  pub expires_at : ℕ
  pub accepted_at : Option ℕ

pub record Installation : Type 0 where
  pub local_domain : Text
  pub primary_domain_id : Text
  pub dns_provider : Text
  pub access_provider : Text
  pub provider_config : Text
  pub onboarded_at : Option ℕ

pub record Hostname : Type 0 where
  pub id : Text
  pub domain_id : Text
  pub hostname : Text

pub record Verification : Type 0 where
  pub domain_id : Text
  pub method : Text
  pub success : Bool
  pub detail : Text

pub record MailDomain : Type 0 where
  pub id : Text
  pub domain_id : Text
  pub status : MailDomainStatus
  pub dkim_selector : Text
  pub dkim_record : Text

pub record MailIdentity : Type 0 where
  pub id : Text
  pub organization_id : Text
  pub user_id : Option Text
  pub domain_id : Text
  pub local_part : Text
  pub address : Text
  pub chasquid_username : Text
  pub status : MailIdentityStatus

pub record MailCredential : Type 0 where
  pub id : Text
  pub mail_identity_id : Text
  pub secret_fingerprint : Text
  pub status : CredentialStatus

pub record MailSubmissionPolicy : Type 0 where
  pub mail_identity_id : Text
  pub credential_id : Text
  pub allowed_from_addresses : List Text
  pub application_instance_id : Option Text

pub record MailAlias : Type 0 where
  pub id : Text
  pub organization_id : Text
  pub domain_id : Text
  pub group_id : Option Text
  pub local_part : Text
  pub address : Text
  pub destinations : List Text
  pub active : Bool

pub record AuditEvent : Type 0 where
  pub actor_user_id : Option Text
  pub action : String
  pub resource_type : String
  pub resource_id : Text

-- `loginFails` of internal/httpapi/setup_handlers.go
pub record LoginFails : Type 0 where
  pub count : ℕ
  pub window_start : ℕ

-- What `noteVerifyPoll` was told: that the installation could not be read, or the status of the
-- attempt, its word, and its hint.
pub data PollNote : Type 0 where
  lookup_failed : PollNote
  attempt : ℕ → String → Option Text → PollNote

-- What was done to authentik, chasquid and the DNS provider, in the order in which it was done.
pub data Effect : Type 0 where
  ensure_user : Text → Effect
  set_user_password : Text → Text → Effect
  set_user_active : Text → Bool → Effect
  ensure_group : Text → Effect
  add_user : Text → Text → Effect
  change_password : Text → Text → Effect
  ensure_sender_policy : Text → List Text → Effect
  ensure_domain : Text → Effect
  ensure_dkim : Text → Effect
  ensure_alias : Text → Text → List Text → Effect
  restart : Effect
  reload : Effect
  set_txt : Text → Text → Effect

pub record World : Type 0 where
  pub now : ℕ
  pub calls : ℕ
  pub draws : ℕ
  pub users : List User
  pub organizations : List Organization
  pub memberships : List Membership
  pub groups : List Group
  pub group_memberships : List GroupMembership
  pub externals : List ExternalResource
  pub invites : List Invite
  pub installation : Installation
  pub domains : List DomainRow
  pub hostnames : List Hostname
  pub verifications : List Verification
  pub mail_domains : List MailDomain
  pub mail_identities : List MailIdentity
  pub mail_credentials : List MailCredential
  pub mail_policies : List MailSubmissionPolicy
  pub mail_aliases : List MailAlias
  pub audits : List AuditEvent
  pub login_fails : Text → Option LoginFails
  pub last_verify : Option (ℕ × PollNote)
  pub effects : List Effect
