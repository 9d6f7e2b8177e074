-- ===== src/Tests/Flows.antt =====
-- The theorems on the store and the handlers, at the small installation.
use selfu.Base.{
  ℕ, suc, ◌+◌, ◌≤◌, ◌<◌, ◌≡◌, ◌⊎◌, inl, inr, refl, Bool, true, false, none, some, List, [], ◌∷◌,
  ◌++◌, Text, text, ◌==◌, String, ok, arith, length,
}
use selfu.Domain.Roles.{OrgRole, default_role, valid}
use selfu.Domain.Names.{normalize_domain}
use selfu.Store.State.{World, Hostname}
use selfu.Store.Exec.{Result, got, fails, StoreError, Deps, tick}
use selfu.Store.Exec.Tables.{find, count}
use selfu.Store.Users.{upsert_from_oidc}
use selfu.Store.Organizations.{set_membership, get_membership_role}
use selfu.Store.Invites.{close_at, consume_invite, is_pending}
use selfu.Store.Invites.SingleUse.{consume_invite-once, consume_invite-redeemable}
use selfu.HttpApi.{Reply, problem, json, require_org_role, reply_json}
use selfu.HttpApi.Access.{MayAct, require_org_role-json}
use selfu.HttpApi.Accounts.{toggle_admin}
use selfu.HttpApi.Accounts.Admins.{is_active_admin, toggle_admin-last_admin}
use selfu.HttpApi.Invitations.{
  AcceptInviteReq, Accepted, accept_invitation, issue_invite, CreateInviteResp,
}
use selfu.HttpApi.Invitations.Redeem.{accept_invitation-granted, accept_invitation-refused}
use selfu.HttpApi.Invitations.Pending.{issue_invite-only_pending}
use selfu.HttpApi.Ownership.{verify_domain, bind_hostname}
use selfu.HttpApi.Ownership.Judged.{proven_verdict}
use selfu.HttpApi.Ownership.Proof.{IsOwned, verify_domain-record, bind_hostname-within}
use selfu.Tests.Fixtures.{steady, ada, bob, eve, invite, start}

abbrev password : AcceptInviteReq
password = record { token = text " secret "; password = text "longenough" }

abbrev unknown : AcceptInviteReq
unknown = record { token = text "guess"; password = text "longenough" }

abbrev accepted : Accepted
accepted = record { organization_id = text "o1"; role = OrgRole.member }

redeems :
    accept_invitation steady (some password) start
    ≡ (json 200 accepted, (accept_invitation steady (some password) start).1)
unfolding accept_invitation selfu.Base.trim_space selfu.Store.Invites.get_invite_by_token_hash find
    ◌==◌ selfu.Store.Externals.get_external_resource selfu.HttpApi.Seams.set_user_password
    consume_invite set_membership valid default_role selfu.Store.Exec.Tables.exists
redeems = refl

accept_invitation-granted_example : 8 ≤ length (text "longenough")
accept_invitation-granted_example =
    (accept_invitation-granted steady password start
      (accept_invitation steady (some password) start).1 200 accepted redeems).1

refuses : accept_invitation steady (some unknown) start ≡ (problem 400 "invalid_invite", tick start)
unfolding accept_invitation selfu.Base.trim_space selfu.Store.Invites.get_invite_by_token_hash find
    ◌==◌
refuses = refl

accept_invitation-refused_example : (tick start).memberships ≡ start.memberships
accept_invitation-refused_example =
    accept_invitation-refused steady unknown start (tick start) 400 "invalid_invite" refuses

abbrev consumed : World
consumed = (consume_invite steady (text "i1") start).1

consumes : consume_invite steady (text "i1") start ≡ (got (close_at 100 invite), consumed)
unfolding consume_invite find ◌==◌
consumes = refl

on_time : start.now ≤ consumed.now
unfolding consume_invite
on_time = ground arith

consume_invite-once_example :
    (consume_invite steady (text "i1") consumed).0 ≡ fails StoreError.conflict
consume_invite-once_example =
    consume_invite-once steady (text "i1") start consumed consumed (close_at 100 invite) consumes
      refl on_time refl

consume_invite-redeemable_example : 100 < 200
unfolding close_at
consume_invite-redeemable_example =
    (consume_invite-redeemable steady (text "i1") start consumed (close_at 100 invite) consumes).1

verifies :
    verify_domain steady ada (text "d1") start
    ≡ (json 200 proven_verdict, (verify_domain steady ada (text "d1") start).1)
unfolding verify_domain selfu.Store.Domains.get_domain_by_id find ◌==◌
    selfu.Store.Domains.set_domain_status selfu.Store.Exec.Tables.exists
verifies = refl

verify_domain-record_example : IsOwned steady ada (text "d1") start
verify_domain-record_example =
    (verify_domain-record steady ada (text "d1") start
      (verify_domain steady ada (text "d1") start).1 (json 200 proven_verdict) verifies
      (inl refl)).0

abbrev seven : ℕ
seven = 7

gets_past :
    require_org_role steady eve (text "o1") OrgRole.admin (reply_json 200 seven) start
    ≡ (json 200 seven, start)
unfolding require_org_role
gets_past = refl

require_org_role-json_example : MayAct eve (text "o1") OrgRole.admin start
require_org_role-json_example =
    (require_org_role-json steady eve (text "o1") OrgRole.admin (reply_json 200 seven) start start
      200 seven gets_past).0

demotes :
    toggle_admin steady ada (text "eve") (some false) start
    ≡ (json 200 false, (toggle_admin steady ada (text "eve") (some false) start).1)
unfolding toggle_admin ◌==◌ selfu.Store.Users.admin_count count selfu.Store.Users.set_user_admin
demotes = refl

one_row : count (λ u. u.id == text "eve") start.users ≤ 1
unfolding count ◌==◌
one_row = ground arith

toggle_admin-last_admin_example :
    1 ≤ count is_active_admin (toggle_admin steady ada (text "eve") (some false) start).1.users
toggle_admin-last_admin_example =
    (toggle_admin-last_admin steady ada (text "eve") start
      (toggle_admin steady ada (text "eve") (some false) start).1 200 false one_row demotes).0

abbrev issued : CreateInviteResp
issued = record {
  user = bob;
  invite = record {
    id = 1 ∷ [];
    organization_id = text "o1";
    user_id = text "bob";
    token_hash = b'#' ∷ 0 ∷ [];
    role = OrgRole.member;
    invited_by = text "ada";
    expires_at = 604900;
    accepted_at = none;
  };
  token = 0 ∷ [];
}

abbrev reinvited : World
reinvited = (issue_invite steady ada (text "o1") OrgRole.member bob start).1

issues : issue_invite steady ada (text "o1") OrgRole.member bob start ≡ (json 200 issued, reinvited)
unfolding issue_invite get_membership_role find ◌==◌ selfu.Store.Invites.expire_pending_invites
    selfu.Store.Invites.create_invite selfu.Store.Exec.Tables.exists
    selfu.Store.Exec.Tables.update_where
issues = refl

issue_invite-only_pending_example :
    count (is_pending (text "o1") (text "bob")) reinvited.invites ≡ 1
issue_invite-only_pending_example =
    (issue_invite-only_pending steady ada bob (text "o1") OrgRole.member start reinvited 200 issued
      issues).0

abbrev bound : Hostname
bound = record { id = 0 ∷ []; domain_id = text "d1"; hostname = text "git.x.org" }

abbrev with_hostname : World
with_hostname = (bind_hostname steady ada (text "d1") (some (text "Git.x.org")) start).1

binds :
    bind_hostname steady ada (text "d1") (some (text "Git.x.org")) start
    ≡ (json 201 bound, with_hostname)
unfolding bind_hostname selfu.Store.Domains.get_domain_by_id find ◌==◌
    selfu.Domain.Names.hostname_within_domain selfu.Domain.Names.canonical selfu.Base.trim_suffix
    selfu.Base.to_lower selfu.Base.trim_space selfu.Base.has_suffix
    selfu.Domain.Names.normalize_domain selfu.Domain.Names.check_labels selfu.Base.split
    selfu.Store.Domains.add_hostname selfu.Store.Exec.Tables.exists
binds = refl

bind_hostname-within_example :
    normalize_domain steady.to_ascii (text "Git.x.org") ≡ ok (text "git.x.org")
bind_hostname-within_example =
    (bind_hostname-within steady ada (text "d1") (text "Git.x.org") start with_hostname 201 bound
      binds).6
