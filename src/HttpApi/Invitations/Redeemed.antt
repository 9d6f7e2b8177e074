-- ===== src/HttpApi/Invitations/Redeemed.antt =====
-- What a redemption that succeeds leaves in the tables.
use selfu.Base.{
  is_empty, ◌+◌, Bool-cases, sym, List, ℕ, ◌≡◌, inl, inr, none, some, ◌∷◌, arith, Option-cases,
  Text, ap, ◌∙◌,
}
use selfu.Domain.Roles.{OrgRole, default_role}
use selfu.Store.State.{World, Invite, ExternalResource, Effect, ResourceType, AuditEvent}
use selfu.Store.Exec.{tick, got, Deps, Result-cases}
use selfu.Store.Exec.Tables.{find, update_where}
use selfu.Store.Organizations.{set_membership, upsert_membership, set_memberships}
use selfu.Store.Organizations.Grants.{role_of, set_membership-get}
use selfu.Store.Invites.{is_redeemable, close_at, consume_invite, consume_row, set_invites}
use selfu.Store.Externals.{is_mapping, get_external_resource}
use selfu.HttpApi.{json, problem-ne_json}
use selfu.HttpApi.Frames.{audit-world}
use selfu.HttpApi.Seams.{set_user_password, record_effect}
use selfu.HttpApi.Invitations.{Accepted, redeem, set_password_then}

abbrev activated : Invite → AuditEvent
activated i = record {
  actor_user_id = none;
  action = "user.activated";
  resource_type = "user";
  resource_id = i.user_id;
}

set_membership-kept :
    (d : Deps) (org user : Text) (role : OrgRole) (w : World)
    → ((set_membership d org user role w).1.invites ≡ w.invites)
      × ((set_membership d org user role w).1.effects ≡ w.effects)
unfolding set_membership upsert_membership set_memberships
set_membership-kept d org user role w = (ground arith, ground arith)

-- The table of invitations after the redeemable row of the id was closed
abbrev pub closed : Text → ℕ → List Invite → List Invite
closed id now = update_where (is_redeemable id now) (close_at now)

-- A row that ConsumeInvite accepts is redeemable, and is closed.
consume_invite-got :
    (d : Deps) (id : Text) (w w1 : World) (i : Invite)
    → consume_invite d id w ≡ (got i, w1)
    → (j : Invite) × (find (is_redeemable id w.now) w.invites ≡ some j)
      × (i ≡ close_at w.now j)
      × (w1.invites ≡ closed id w.now w.invites)
      × (w1.effects ≡ w.effects)
unfolding consume_invite consume_row set_invites
consume_invite-got d id w w1 i h = elim (Option-cases (find (is_redeemable id w.now) w.invites)) [
  | inl e ↦ ground arith
  | inr (j, e) ↦ (j, e, ground arith, ground arith, ground arith)
]

-- What a redemption leaves: the row is closed, and its user holds its role in its organization.
abbrev pub IsRedeemed : Text → World → World → Accepted → Type 0
IsRedeemed id w w' a =
    (j : Invite) × (find (is_redeemable id w.now) w.invites ≡ some j)
    × (w'.invites ≡ closed id w.now w.invites)
    × (a ≡ record { organization_id = j.organization_id; role = j.role })
    × (role_of w' j.organization_id j.user_id ≡ some (default_role j.role))

redeem-json :
    (d : Deps) (id : Text) (w w' : World) (status : ℕ) (a : Accepted)
    → redeem d id w ≡ (json status a, w')
    → (status ≡ 200) × (w'.effects ≡ w.effects) × IsRedeemed id w w' a
unfolding redeem close_at
redeem-json d id w w' status a h = elim (Result-cases (consume_invite d id w)) [
  | inr (e, w1, q) ↦ ground arith
  | inl (i, w1, q) ↦ elim (Result-cases (set_membership d i.organization_id i.user_id i.role w1)) [
    | inr (e, w2, r) ↦ ground arith
    | inl (m, w2, r) ↦
        let (j, found, same, rows, effects) = consume_invite-got d id w w1 i q in
        let held = (set_membership-get d i.organization_id i.user_id i.role w1 w2 m r).1 in
        let (invites, outside) = set_membership-kept d i.organization_id i.user_id i.role w1 in
        let kept = audit-world d (activated i) w2 in
        let members : w'.memberships ≡ w2.memberships = ground arith in
        let invites' : w'.invites ≡ w2.invites = ground arith in
        let effects' : w'.effects ≡ w2.effects = ground arith in
        let org : i.organization_id ≡ j.organization_id = ap (λ x. x.organization_id) same in
        let user : i.user_id ≡ j.user_id = ap (λ x. x.user_id) same in
        let role : i.role ≡ j.role = ap (λ x. x.role) same in
        let body : a ≡ record { organization_id = i.organization_id; role = i.role } =
          ground arith in
        (
          ground arith,
          effects' ∙ rw r at outside ∙ effects,
          (
            j,
            found,
            invites' ∙ rw r at invites ∙ rows,
            body ∙ (λ k. record { organization_id = org k; role = role k }),
            rw (members, sym org, sym user, sym role) held,
          ),
        )
  ]
]

-- The password is set for the user that authentik has for the invited one.
pub set_password_then-json :
    (d : Deps) (password : Text) (i : Invite) (w w' : World) (status : ℕ) (a : Accepted)
    → set_password_then d password i w ≡ (json status a, w')
    → (status ≡ 200)
      × ((r : ExternalResource) × (find
              (is_mapping ResourceType.authentik_user i.user_id)
              w.externals
            ≡ some r)
          × (w'.effects ≡ Effect.set_user_password r.external_id password ∷ w.effects))
      × IsRedeemed i.id w w' a
unfolding set_password_then get_external_resource set_user_password record_effect
set_password_then-json d password i w w' status a h = elim (Bool-cases (d.fails w.calls)) [
  | inl up ↦ absurd (problem-ne_json (rw up at h))
  | inr up ↦
      elim (Option-cases (find (is_mapping ResourceType.authentik_user i.user_id) w.externals)) [
        | inl e ↦ absurd (problem-ne_json (rw (up, e) at h))
        | inr (r, e) ↦ elim (Bool-cases (is_empty r.external_id)) [
          | inl f ↦ absurd (problem-ne_json (rw (up, e, f) at h))
          | inr f ↦ elim (Bool-cases d.has_password_setter) [
            | inr k ↦ absurd (problem-ne_json (simp (up, e, f, k) at h))
            | inl k ↦ elim (Bool-cases (d.fails (w.calls + 1))) [
              | inl up' ↦ absurd (problem-ne_json (simp (up, e, f, k, up') at h))
              | inr up' ↦
                  let set =
                    record_effect (Effect.set_user_password r.external_id password)
                      (tick (tick w)) in
                  let (ok, effects, redeemed) =
                    redeem-json d i.id set w' status a (simp (up, e, f, k, up') at h) in
                  (ok, (r, e, effects), redeemed)
            ]
          ]
        ]
      ]
]
