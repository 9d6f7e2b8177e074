-- ===== src/Store/Invites.antt =====
-- Invitation tokens: internal/store/invites.go.
pub mod SingleUse
use selfu.Base.{
  ℕ, ◌+◌, Bool, true, false, not, ◌&&◌, Option, none, some, List, [], ◌∷◌, Text, ◌==◌,
  if◌then◌else◌, is_empty, ltb,
}
use selfu.Store.State.{World, Invite}
use selfu.Store.Exec.{
  StoreError, conflict, failed, Result, got, fails, Deps, Act, call, draw, found,
}
use selfu.Store.Exec.Tables.{find, update_where, exists}
use selfu.Store.Organizations.{pair_exists}

unfoldable pub set_invites : List Invite → World → World
set_invites rows w = record w { invites = rows }

abbrev pub is_open : Option ℕ → Bool
is_open none = true
is_open (some t) = false

-- The row of the pair that no one has redeemed.
unfoldable pub is_pending : Text → Text → Invite → Bool
is_pending org user i = i.organization_id == org && (i.user_id == user && is_open i.accepted_at)

-- The condition of `consumeInviteSQL`
unfoldable pub is_redeemable : Text → ℕ → Invite → Bool
is_redeemable id now i = i.id == id && (is_open i.accepted_at && ltb now i.expires_at)

unfoldable pub close_at : ℕ → Invite → Invite
close_at now i = record i { accepted_at = some now }

unfoldable pub insert_invite : Invite → Act Invite
unfolding set_invites pair_exists
insert_invite i w =
    if pair_exists i.organization_id i.user_id w
      && (exists (λ u. u.id == i.invited_by) w.users
          && not (exists (λ j. j.token_hash == i.token_hash) w.invites))
    then (got i, set_invites (i ∷ w.invites) w)
    else (fails failed, w)

unfoldable pub consume_row : Text → Act Invite
unfolding set_invites is_redeemable close_at
consume_row id w = go (find (is_redeemable id w.now) w.invites)
  where
    go : Option Invite → Result Invite × World
    go none = (fails conflict, w)
    go (some i) = (
      got (close_at w.now i),
      set_invites (update_where (is_redeemable id w.now) (close_at w.now) w.invites) w,
    )

module _ (d : Deps) where
  unfoldable pub create_invite : Invite → Act Invite
  unfolding insert_invite
  create_invite i w =
      let drawn = draw d w in
      if is_empty i.id
      then call d (insert_invite (record i { id = drawn.0 })) drawn.1
      else call d (insert_invite i) w

  unfoldable pub expire_pending_invites : Text → Text → Act (Unit {0})
  unfolding set_invites is_pending close_at
  expire_pending_invites org user =
      call d (λ w.
        (got tt, set_invites (update_where (is_pending org user) (close_at w.now) w.invites) w))

  unfoldable pub get_invite_by_token_hash : Text → Act Invite
  get_invite_by_token_hash hash =
      call d (λ w. (found (find (λ i. i.token_hash == hash) w.invites), w))

  unfoldable pub consume_invite : Text → Act Invite
  unfolding consume_row
  consume_invite id = call d (consume_row id)
