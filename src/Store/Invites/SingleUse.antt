-- ===== src/Store/Invites/SingleUse.antt =====
-- What `ConsumeInvite` and `ExpirePendingInvites` promise.
use selfu.Base.{
  ℕ, ◌≤◌, ◌<◌, ◌≡◌, ◌⊎◌, inl, inr, refl, true, false, none, some, arith, Bool-cases, Option-cases,
  if◌then◌else◌, Text, ◌==◌, ltb,
}
use selfu.Store.State.{World, Invite}
use selfu.Store.Exec.{conflict, got, fails, Deps, tick}
use selfu.Store.Exec.Tables.{find, update_where, count}
use selfu.Store.Exec.Tables.Rows.{find-eq-some, find-update_where-none, count-update_where_none}
use selfu.Store.Invites.{
  is_open, is_pending, is_redeemable, close_at, set_invites, consume_row, consume_invite,
  expire_pending_invites,
}

-- A row that was redeemable is closed for good, and one that was not stays so.
close_at-unredeemable :
    (id : Text) (now later : ℕ) (i : Invite)
    → now ≤ later
    → is_redeemable id later (if is_redeemable id now i then close_at now i else i) ≡ false
unfolding is_redeemable close_at
close_at-unredeemable id now later i le =
    go (Bool-cases (i.id == id)) (Bool-cases (is_open i.accepted_at))
      (Bool-cases (ltb now i.expires_at))
  where
    go :
        ((i.id == id) ≡ true) ⊎ ((i.id == id) ≡ false)
        → (is_open i.accepted_at ≡ true) ⊎ (is_open i.accepted_at ≡ false)
        → (ltb now i.expires_at ≡ true) ⊎ (ltb now i.expires_at ≡ false)
        → is_redeemable id later (if is_redeemable id now i then close_at now i else i) ≡ false
    go (inl a) (inl b) (inl c) = rw (a, b, c, a) refl
    go (inl a) (inl b) (inr c) =
        rw (a, b, c, a, b) (let e : ltb later i.expires_at ≡ false = ground arith in e)
    go (inl a) (inr b) c = rw (a, b, a, b) refl
    go (inr a) b c = rw (a, a) refl

-- What a successful call did.
consume_invite-cases :
    (d : Deps) (id : Text) (w w' : World) (i : Invite)
    → consume_invite d id w ≡ (got i, w')
    → (j : Invite) × (find (is_redeemable id w.now) w.invites ≡ some j)
      × (i ≡ close_at w.now j)
      × (w'
          ≡ set_invites (update_where (is_redeemable id w.now) (close_at w.now) w.invites) (tick w))
unfolding consume_invite consume_row
consume_invite-cases d id w w' i h = elim (Bool-cases (d.fails w.calls)) [
  | inl e ↦ ground arith
  | inr e ↦ elim (Option-cases (find (is_redeemable id w.now) w.invites)) [
    | inl f ↦ ground arith
    | inr (j, f) ↦ (j, f, ground arith, ground arith)
  ]
]

is_redeemable-parts :
    (id : Text) (now : ℕ) (i : Invite)
    → is_redeemable id now i ≡ true
    → ((i.id == id) ≡ true) × (now < i.expires_at) × (i.accepted_at ≡ none)
unfolding is_redeemable
is_redeemable-parts id now i h = (
  ground arith,
  ground arith,
  elim (Option-cases i.accepted_at) [ inl e ↦ e | inr (t, e) ↦ ground arith ],
)

module _ (d : Deps) (id : Text) where
  -- An invitation is redeemed at most once: after a call of ConsumeInvite that succeeded, any later
  -- call for the same id reports a conflict, whatever happened to the other tables in between, as
  -- long as the invitations are as that call left them and its statement does not fail.
  pub consume_invite-once :
      (w w' later : World) (i : Invite)
      → consume_invite d id w ≡ (got i, w')
      → later.invites ≡ w'.invites
      → w.now ≤ later.now
      → d.fails later.calls ≡ false
      → (consume_invite d id later).0 ≡ fails conflict
  unfolding consume_invite consume_row set_invites
  consume_invite-once w w' later i h same le ok =
      let (j, f, e, q) = consume_invite-cases d id w w' i h in
      let none_left =
        find-update_where-none (is_redeemable id w.now) (is_redeemable id later.now)
          (close_at w.now) (λ x. close_at-unredeemable id w.now later.now x le) w.invites in
      let rows : later.invites ≡ update_where (is_redeemable id w.now) (close_at w.now) w.invites =
        cc in
      rw (ok, rows, none_left) refl

  -- ConsumeInvite succeeds only for an invitation with this id that no one has redeemed and that has
  -- not expired, and returns it with the time of the call as its time of acceptance.
  pub consume_invite-redeemable :
      (w w' : World) (i : Invite)
      → consume_invite d id w ≡ (got i, w')
      → ((i.id == id) ≡ true)
        × (w.now < i.expires_at)
        × (i.accepted_at ≡ some w.now)
        × ((j : Invite) × (find (is_redeemable id w.now) w.invites ≡ some j)
            × (j.accepted_at ≡ none)
            × (i ≡ close_at w.now j))
  unfolding close_at
  consume_invite-redeemable w w' i h =
      let (j, f, e, q) = consume_invite-cases d id w w' i h in
      let passes = (find-eq-some (is_redeemable id w.now) w.invites j f).0 in
      let (same, unexpired, unused) = is_redeemable-parts id w.now j passes in
      rw e (same, unexpired, refl, (j, f, unused, refl))

close_at-not_pending :
    (org user : Text) (now : ℕ) (i : Invite)
    → is_pending org user (if is_pending org user i then close_at now i else i) ≡ false
unfolding is_pending close_at
close_at-not_pending org user now i = ground arith

-- No row of the pair is left pending.
pub expire_pending_invites-none :
    (d : Deps) (org user : Text) (w w' : World) (u : Unit {0})
    → expire_pending_invites d org user w ≡ (got u, w')
    → count (is_pending org user) w'.invites ≡ 0
unfolding expire_pending_invites set_invites
expire_pending_invites-none d org user w w' u h =
    let e : w'.invites ≡ update_where (is_pending org user) (close_at w.now) w.invites =
      ground arith in
    rw e (
      count-update_where_none (is_pending org user) (is_pending org user) (close_at w.now)
        (close_at-not_pending org user w.now) w.invites)
