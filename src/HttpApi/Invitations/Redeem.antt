-- ===== src/HttpApi/Invitations/Redeem.antt =====
-- Redeeming an invitation: what `acceptInvite` promises.
use selfu.Base.{
  is_empty, ltb, ◌||◌, Bool-cases, ℕ, ◌≤◌, ◌≡◌, inl, inr, false, some, ◌∷◌, arith, Option-cases,
  Text, ◌==◌, String, length, trim_space,
}
use selfu.Store.State.{World, Invite, ExternalResource, Effect, ResourceType}
use selfu.Store.Exec.{tick, Deps, Result-cases}
use selfu.Store.Exec.Tables.{find}
use selfu.Store.Organizations.{set_membership}
use selfu.Store.Organizations.Grants.{set_membership-fails}
use selfu.Store.Invites.{
  is_redeemable, get_invite_by_token_hash, consume_invite, consume_row, set_invites,
}
use selfu.Store.Externals.{is_mapping, get_external_resource}
use selfu.HttpApi.{problem, json, problem-ne_json}
use selfu.HttpApi.Seams.{set_user_password, record_effect}
use selfu.HttpApi.Invitations.{
  AcceptInviteReq, Accepted, is_spent, redeem, set_password_then, accept_invitation,
}
use selfu.HttpApi.Invitations.Redeemed.{IsRedeemed, set_password_then-json}

consume_invite-memberships :
    (d : Deps) (id : Text) (w : World) → (consume_invite d id w).1.memberships ≡ w.memberships
unfolding consume_invite consume_row set_invites
consume_invite-memberships d id w = elim (Option-cases (find (is_redeemable id w.now) w.invites)) [
  | inl e ↦ ground arith
  | inr (i, e) ↦ ground arith
]

redeem-problem :
    (d : Deps) (id : Text) (w w' : World) (status : ℕ) (code : String)
    → redeem d id w ≡ (problem status code, w')
    → w'.memberships ≡ w.memberships
unfolding redeem
redeem-problem d id w w' status code h =
    let kept = consume_invite-memberships d id w in
    elim (Result-cases (consume_invite d id w)) [
      | inr (e, w1, q) ↦ ground arith
      | inl (i, w1, q) ↦
          elim (Result-cases (set_membership d i.organization_id i.user_id i.role w1)) [
            | inr (e, w2, r) ↦
                let same = set_membership-fails d i.organization_id i.user_id i.role w1 w2 e r in
                ground arith
            | inl (m, w2, r) ↦ ground arith
          ]
    ]

set_password_then-problem :
    (d : Deps) (password : Text) (i : Invite) (w w' : World) (status : ℕ) (code : String)
    → set_password_then d password i w ≡ (problem status code, w')
    → w'.memberships ≡ w.memberships
unfolding set_password_then get_external_resource set_user_password record_effect
set_password_then-problem d password i w w' status code h =
    elim (Result-cases (get_external_resource d ResourceType.authentik_user i.user_id w)) [
      | inr (e, w1, q) ↦ ground arith
      | inl (r, w1, q) ↦ elim (Result-cases (set_user_password d r.external_id password w1)) [
        | inr (e, w2, s) ↦ ground arith
        | inl (u, w2, s) ↦ let same = redeem-problem d i.id w2 w' status code in ground arith
      ]
    ]

module _ (d : Deps) (req : AcceptInviteReq) where
  -- A redemption that is refused, for whatever reason, leaves every membership as it is: nobody gets
  -- access to an organization from an invitation that was not redeemed.
  pub accept_invitation-refused :
      (w w' : World) (status : ℕ) (code : String)
      → accept_invitation d (some req) w ≡ (problem status code, w')
      → w'.memberships ≡ w.memberships
  unfolding accept_invitation get_invite_by_token_hash
  accept_invitation-refused w w' status code h =
      elim (Result-cases (get_invite_by_token_hash d (d.sha256_hex (trim_space req.token)) w)) [
        | inr (e, w1, q) ↦ ground arith
        | inl (i, w1, q) ↦
            let same = set_password_then-problem d req.password i w1 w' status code in ground arith
      ]

  -- A redemption that succeeds answers 200. The invitation whose hash the request's token has was
  -- neither used nor expired, and the password has at least 8 bytes. Exactly one
  -- thing was done outside: the password was set for the user that authentik has for the invited one. The row that is
  -- redeemable under the id of the invitation (which is the invitation, ids being keys) was closed at
  -- the time of the request, and no other invitation changed; its user holds its role in its
  -- organization, and both are what the reply says.
  pub accept_invitation-granted :
      (w w' : World) (status : ℕ) (a : Accepted)
      → accept_invitation d (some req) w ≡ (json status a, w')
      → (status ≡ 200)
        × (8 ≤ length req.password)
        × ((i : Invite) × (find (λ j. j.token_hash == d.sha256_hex (trim_space req.token)) w.invites
              ≡ some i)
            × (is_spent w.now i ≡ false)
            × ((r : ExternalResource) × (find
                    (is_mapping ResourceType.authentik_user i.user_id)
                    w.externals
                  ≡ some r)
                × (w'.effects ≡ Effect.set_user_password r.external_id req.password ∷ w.effects))
            × IsRedeemed i.id w w' a)
  unfolding accept_invitation get_invite_by_token_hash
  accept_invitation-granted w w' status a h =
      let hash = d.sha256_hex (trim_space req.token) in
      elim (Bool-cases (is_empty (trim_space req.token) || ltb (length req.password) 8)) [
        | inl bad ↦ absurd (problem-ne_json (rw bad at h))
        | inr good ↦ elim (Bool-cases (d.fails w.calls)) [
          | inl up ↦ absurd (problem-ne_json (rw (good, up) at h))
          | inr up ↦ elim (Option-cases (find (λ j. j.token_hash == hash) w.invites)) [
            | inl e ↦ absurd (problem-ne_json (rw (good, up, e) at h))
            | inr (i, e) ↦ elim (Bool-cases (is_spent w.now i)) [
              | inl old ↦ absurd (problem-ne_json (rw (good, up, e, old) at h))
              | inr fresh ↦
                  let (ok, set, redeemed) =
                    set_password_then-json d req.password i (tick w) w' status a
                      (rw (good, up, e, fresh) at h) in
                  (ok, ground arith, (i, e, fresh, set, redeemed))
            ]
          ]
        ]
      ]
