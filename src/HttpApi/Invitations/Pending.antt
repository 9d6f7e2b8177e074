-- ===== src/HttpApi/Invitations/Pending.antt =====
-- Issuing invitations: what `createInvite` promises.
use selfu.Base.{ℕ, ◌+◌, ◌≡◌, inl, inr, refl, true, none, some, ◌∷◌, arith, Text, ==_refl}
use selfu.Domain.Roles.{OrgRole}
use selfu.Domain.Entities.{User}
use selfu.Store.State.{World, Invite, AuditEvent}
use selfu.Store.Exec.{got, Deps, draw, Result-cases}
use selfu.Store.Exec.Tables.{count}
use selfu.Store.Organizations.{get_membership_role}
use selfu.Store.Invites.{
  is_pending, create_invite, insert_invite, set_invites, expire_pending_invites,
}
use selfu.Store.Invites.SingleUse.{expire_pending_invites-none}
use selfu.HttpApi.{json, audit}
use selfu.HttpApi.Frames.{audit-world}
use selfu.HttpApi.Invitations.{invite_row, CreateInviteResp, issue_invite}

create_invite-rows :
    (d : Deps) (i j : Invite) (w w' : World)
    → create_invite d i w ≡ (got j, w')
    → (w'.invites ≡ j ∷ w.invites)
      × (j.organization_id ≡ i.organization_id)
      × (j.user_id ≡ i.user_id)
      × (j.accepted_at ≡ i.accepted_at)
      × (j.token_hash ≡ i.token_hash)
      × (j.role ≡ i.role)
      × (j.expires_at ≡ i.expires_at)
unfolding create_invite insert_invite set_invites
create_invite-rows d i j w w' h = (
  ground arith,
  ground arith,
  ground arith,
  ground arith,
  ground arith,
  ground arith,
  ground arith,
)

is_pending-new :
    (org user : Text) (i : Invite)
    → i.organization_id ≡ org
    → i.user_id ≡ user
    → i.accepted_at ≡ none
    → is_pending org user i ≡ true
unfolding is_pending
is_pending-new org user i o v e = rw (o, v, e, ==_refl org, ==_refl user) refl

abbrev invited : User → Text → AuditEvent
invited actor org = record {
  actor_user_id = some actor.id;
  action = "user.invited";
  resource_type = "organization";
  resource_id = org;
}

module _ (d : Deps) (actor user : User) (org : Text) (role : OrgRole) where
  issued :
      (w1 w2 w4 w3 w' : World) (u : Unit {0}) (j : Invite) (token id : Text)
      → expire_pending_invites d org user.id w1 ≡ (got u, w2)
      → w4.invites ≡ w2.invites
      → create_invite d (invite_row d actor org role user token id w2.now) w4 ≡ (got j, w3)
      → w' ≡ audit d (invited actor org) w3
      → (count (is_pending org user.id) w'.invites ≡ 1)
        × (is_pending org user.id j ≡ true)
        × (j.role ≡ role)
        × (j.token_hash ≡ d.sha256_hex token)
        × (j.expires_at ≡ w2.now + 604800)
  unfolding invite_row
  issued w1 w2 w4 w3 w' u j token id expired same made after =
      let (rows, o, v, open_row, hash, held, ends) =
        create_invite-rows d (invite_row d actor org role user token id w2.now) j w4 w3 made in
      let kept : w'.invites ≡ j ∷ w2.invites =
        let a = audit-world d (invited actor org) w3 in ground arith in
      let old = expire_pending_invites-none d org user.id w1 w2 u expired in
      let new : is_pending org user.id j ≡ true = is_pending-new org user.id j o v open_row in
      (rw (kept) (unfold count in rw (new, old) refl), new, held, hash, ends)

  -- When an invitation is issued, it is the only pending one of this organization and user: the ones
  -- issued before are closed. It holds the hash of the token that the reply shows, the role that was
  -- asked for, and ends seven days after the request.
  pub issue_invite-only_pending :
      (w w' : World) (status : ℕ) (r : CreateInviteResp)
      → issue_invite d actor org role user w ≡ (json status r, w')
      → (count (is_pending org user.id) w'.invites ≡ 1)
        × (is_pending org user.id r.invite ≡ true)
        × (r.invite.role ≡ role)
        × (r.invite.token_hash ≡ d.sha256_hex r.token)
        × (r.invite.expires_at ≡ w.now + 604800)
  unfolding issue_invite
  issue_invite-only_pending w w' status r h =
      elim (Result-cases (get_membership_role d org user.id w)) [
        | inl (held, w1, q) ↦ ground arith
        | inr (e, w1, q) ↦ elim (Result-cases (expire_pending_invites d org user.id w1)) [
          | inr (e, w2, s) ↦ ground arith
          | inl (u, w2, s) ↦
              let token = draw d w2 in
              let id = draw d token.1 in
              let row = invite_row d actor org role user token.0 id.0 w2.now in
              elim (Result-cases (create_invite d row id.1)) [
                | inr (e, w3, t) ↦ ground arith
                | inl (j, w3, t) ↦
                    let body : r ≡ record { user = user; invite = j; token = token.0 } =
                      ground arith in
                    let after : w' ≡ audit d (invited actor org) w3 = ground arith in
                    let time : w2.now ≡ w.now =
                      unfold expire_pending_invites set_invites get_membership_role in
                      ground arith in
                    rw (body, ← time) (issued w1 w2 id.1 w3 w' u j token.0 id.0 s refl t after)
              ]
        ]
      ]
