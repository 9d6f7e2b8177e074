-- ===== src/Tests/Members.antt =====
-- The theorems on members, onboarding and aliases, at the small installation.
use selfu.Base.{
  ℕ, ◌≡◌, ◌⊎◌, inl, inr, refl, true, false, none, some, [], ◌∷◌, Text, text, ◌==◌, All,
}
use selfu.Domain.Roles.{OrgRole}
use selfu.Domain.Statuses.{UserStatus}
use selfu.Store.State.{World, MailAlias}
use selfu.Store.Exec.{Result, got, fails}
use selfu.Store.Exec.Tables.{count}
use selfu.Store.Organizations.Grants.{role_of}
use selfu.Store.Mail.{validate_alias_destinations}
use selfu.HttpApi.{Reply, problem, json}
use selfu.HttpApi.Access.{MayAct}
use selfu.HttpApi.Accounts.{disable_user}
use selfu.HttpApi.Accounts.Leavers.{disable_user-stripped}
use selfu.HttpApi.Invitations.{CreateInviteReq, CreateInviteResp, create_invitation}
use selfu.HttpApi.Invitations.Owners.{create_invitation-owner}
use selfu.HttpApi.Onboarding.{OnboardReq, OnboardResp, onboard_user}
use selfu.HttpApi.Onboarding.Grants.{onboard_user-owner}
use selfu.HttpApi.Mail.Aliases.{route_alias}
use selfu.HttpApi.Mail.Routing.{IsLocal, route_alias-IsLocal}
use selfu.Tests.Fixtures.{steady, ada, bob, site, start}

abbrev left : World
left = (disable_user steady ada (text "eve") start).1

disables : disable_user steady ada (text "eve") start ≡ (json 200 UserStatus.disabled, left)
unfolding disable_user selfu.Store.Users.set_user_status selfu.Store.Exec.Tables.exists
    selfu.Store.Externals.get_external_resource selfu.Store.Exec.Tables.find ◌==◌
disables = refl

disable_user-stripped_example : count (λ m. m.user_id == text "eve") left.memberships ≡ 0
disable_user-stripped_example =
    (disable_user-stripped steady ada (text "eve") start left 200 UserStatus.disabled (λ n. refl)
      disables).2

abbrev co_owner : CreateInviteReq
co_owner = record { email = text "bob@x.org"; display_name = []; role = OrgRole.owner }

abbrev invited : World
invited = (create_invitation steady ada (text "o1") (some co_owner) start).1

abbrev issued : CreateInviteResp
issued = record {
  user = bob;
  invite = record {
    id = 1 ∷ [];
    organization_id = text "o1";
    user_id = text "bob";
    token_hash = b'#' ∷ 0 ∷ [];
    role = OrgRole.owner;
    invited_by = text "ada";
    expires_at = 604900;
    accepted_at = none;
  };
  token = 0 ∷ [];
}

invites_owner :
    create_invitation steady ada (text "o1") (some co_owner) start ≡ (json 200 issued, invited)
unfolding create_invitation selfu.Base.to_lower selfu.Base.trim_space selfu.Domain.Roles.valid
    selfu.Domain.Roles.default_role selfu.HttpApi.Seams.ensure_platform_user
    selfu.Store.Users.get_user_by_email selfu.Store.Exec.Tables.find ◌==◌
    selfu.Store.Invites.expire_pending_invites selfu.Store.Invites.create_invite
    selfu.Store.Exec.Tables.exists selfu.Store.Exec.Tables.update_where
invites_owner = refl

create_invitation-owner_example :
    (ada.is_admin ≡ true) ⊎ (role_of start (text "o1") (text "ada") ≡ some OrgRole.owner)
create_invitation-owner_example =
    create_invitation-owner steady ada (text "o1") co_owner start invited 200 issued refl
      invites_owner

abbrev new_owner : OnboardReq
new_owner = record {
  email = text "bob@x.org";
  display_name = [];
  role = OrgRole.owner;
  group_id = [];
  provision_mailbox = false;
  local_part = [];
}

abbrev onboarded_world : World
onboarded_world = (onboard_user steady ada (text "o1") (some new_owner) start).1

abbrev response : OnboardResp
response = record {
  user = bob;
  membership = record {
    id = 0 ∷ [];
    organization_id = text "o1";
    user_id = text "bob";
    role = OrgRole.owner;
  };
  group = none;
  identity = none;
  secret = none;
}

onboards :
    onboard_user steady ada (text "o1") (some new_owner) start
    ≡ (json 200 response, onboarded_world)
unfolding onboard_user selfu.Base.to_lower selfu.Base.trim_space selfu.Domain.Roles.valid
    selfu.Domain.Roles.default_role selfu.HttpApi.Seams.ensure_platform_user
    selfu.Store.Users.get_user_by_email selfu.Store.Exec.Tables.find ◌==◌
    selfu.Store.Organizations.set_membership selfu.Store.Exec.Tables.exists
onboards = refl

onboard_user-owner_example : MayAct ada (text "o1") OrgRole.admin start
onboard_user-owner_example =
    (onboard_user-owner steady ada (text "o1") new_owner start onboarded_world 200 response
      onboards).0

abbrev alias : MailAlias
alias = record {
  id = 0 ∷ [];
  organization_id = text "o1";
  domain_id = text "d1";
  group_id = none;
  local_part = text "team";
  address = text "team@x.org";
  destinations = text "bob@x.org" ∷ [];
  active = true;
}

abbrev routed : World
routed = (route_alias steady ada site (text "team@x.org") (text "bob@x.org" ∷ []) none start).1

routes :
    route_alias steady ada site (text "team@x.org") (text "bob@x.org" ∷ []) none start
    ≡ (json 201 alias, routed)
unfolding route_alias validate_alias_destinations selfu.Store.Exec.Tables.find ◌==◌
    selfu.HttpApi.Mail.Aliases.ensure_alias selfu.Store.Mail.create_mail_alias
    selfu.Store.Exec.Tables.exists selfu.Provision.local_part_of selfu.Base.cut
routes = refl

route_alias-IsLocal_example : All (IsLocal start (text "o1")) (text "bob@x.org" ∷ [])
route_alias-IsLocal_example =
    (route_alias-IsLocal steady ada site (text "team@x.org") none (text "bob@x.org" ∷ []) start
      routed 201 alias routes).2
