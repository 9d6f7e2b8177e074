-- ===== src/Domain/Statuses.antt =====
-- The lifecycle states of internal/domain, and the ones that mail identities take.
use selfu.Base.{Bool, true, false}

pub data UserStatus : Type 0 where
  active disabled : UserStatus

pub data DomainStatus : Type 0 where
  pending verification_required verified suspended : DomainStatus

pub data MailDomainStatus : Type 0 where
  provisioning active disabled : MailDomainStatus

pub data MailIdentityStatus : Type 0 where
  requested provisioning active suspended deleted : MailIdentityStatus

pub data CredentialStatus : Type 0 where
  active revoked : CredentialStatus

pub data ExternalStatus : Type 0 where
  provisioning active failed removed : ExternalStatus

abbrev pub is_verified : DomainStatus → Bool
is_verified DomainStatus.verified = true
is_verified _ = false

abbrev pub is_active_mail : MailDomainStatus → Bool
is_active_mail MailDomainStatus.active = true
is_active_mail _ = false

abbrev pub is_active_identity : MailIdentityStatus → Bool
is_active_identity MailIdentityStatus.active = true
is_active_identity _ = false

abbrev pub is_active_user : UserStatus → Bool
is_active_user UserStatus.active = true
is_active_user UserStatus.disabled = false
