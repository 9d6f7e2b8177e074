-- ===== src/Domain/Entities.antt =====
-- The constructors of internal/domain that validate what they are given: users, organizations,
-- groups and domains.
pub mod Emails
use selfu.Base.{
  ℕ, suc, Bool, true, false, not, ◌||◌, Option, none, some, [], ◌∷◌, Text, text, ◌==◌, ltb, eqb,
  length, drop, is_empty, if◌then◌else◌, Checked, ok, ◌>>=◌, ◌>>◌, reject_if, trim_space, to_lower,
  contains, contains_any, index_byte, last_index_byte,
}
use selfu.Domain.Statuses.{UserStatus, DomainStatus}
use selfu.Domain.Names.{normalize_domain}
use selfu.Domain.Slugs.{slugify}

-- the part of `looksLikeEmail` after the position of the "@" is known
unfoldable pub domain_part_ok : Text → Bool
domain_part_ok d =
    if is_empty d || contains_any d (text " \t") then false else contains d (text ".")

-- the tests on the first and the last position of "@", of which neither is known to exist
unfoldable pub positions_ok : Option ℕ → Option ℕ → Text → Bool
positions_ok none last s = false
positions_ok (some at) none s = false
positions_ok (some at) (some last) s =
    if eqb at 0 || not (eqb at last) then false else domain_part_ok (drop (suc at) s)

unfoldable pub looks_like_email : Text → Bool
looks_like_email s = positions_ok (index_byte s b'@') (last_index_byte s b'@') s

pub record User : Type 0 where
  pub id : Text
  pub email : Text
  pub display_name : Text
  pub status : UserStatus
  pub is_admin : Bool
  pub auth_provider : Text
  pub auth_identity_id : Text

unfoldable pub new_user : Text → Text → Text → Text → Checked User
new_user raw_email raw_name provider identity_id = do
  let email = to_lower (trim_space raw_email)
  reject_if (is_empty email) "email is required"
  reject_if (not (looks_like_email email)) "email is not a valid address"
  reject_if (is_empty (trim_space provider)) "auth provider is required"
  reject_if (is_empty (trim_space identity_id)) "auth identity id is required"
  ok (record {
    id = [];
    email = email;
    display_name = trim_space raw_name;
    status = UserStatus.active;
    is_admin = false;
    auth_provider = provider;
    auth_identity_id = identity_id;
  })

-- The status column of an organization is the constant "active" wherever the code writes it.
pub record Organization : Type 0 where
  pub id : Text
  pub name : Text
  pub slug : Text

unfoldable pub new_organization : Text → Checked Organization
new_organization raw = do
  let name = trim_space raw
  reject_if (is_empty name) "organization name is required"
  reject_if (ltb 128 (length name)) "organization name too long"
  ok (record { id = []; name = name; slug = slugify name })

pub record Group : Type 0 where
  pub id : Text
  pub organization_id : Text
  pub name : Text
  pub slug : Text
  pub description : Text

unfoldable pub new_group : Text → Text → Text → Checked Group
new_group organization_id raw description = do
  let name = trim_space raw
  reject_if (is_empty organization_id) "organization id is required"
  reject_if (is_empty name) "group name is required"
  reject_if (ltb 128 (length name)) "group name too long"
  ok (record {
    id = [];
    organization_id = organization_id;
    name = name;
    slug = slugify name;
    description = trim_space description;
  })

pub record DomainRow : Type 0 where
  pub id : Text
  pub organization_id : Text
  pub fqdn : Text
  pub status : DomainStatus
  pub verification_method : Text
  pub verification_token : Text
  pub verified_at : Option ℕ
  pub web_enabled : Bool
  pub mail_enabled : Bool

unfoldable pub new_domain : (Text → Checked Text) → Text → Text → Checked DomainRow
new_domain to_ascii organization_id fqdn = do
  norm ← normalize_domain to_ascii fqdn
  reject_if (is_empty organization_id) "organization id is required"
  ok (record {
    id = [];
    organization_id = organization_id;
    fqdn = norm;
    status = DomainStatus.pending;
    verification_method = text "dns_txt";
    verification_token = [];
    verified_at = none;
    web_enabled = false;
    mail_enabled = false;
  })
