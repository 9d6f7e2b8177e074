-- ===== src/Recon/Flags.antt =====
-- What the loop over identities does to their rows.
use selfu.Base.{
  ℕ, ◌≡◌, ap, sym, subst, ◌∙◌, ◌⊎◌, inl, inr, refl, true, false, List, [], ◌∷◌, Text, ◌==◌, ==_iff,
  Bool-cases, All,
}
use selfu.Domain.Statuses.{MailIdentityStatus, is_active_identity}
use selfu.Store.State.{World, MailIdentity}
use selfu.Store.Exec.{Deps, tick}
use selfu.Store.Exec.Tables.{update_where}
use selfu.Store.Mail.{set_mail_identity_status, set_mail_identities}
use selfu.Recon.{
  MailResult, mail_user_exists, flag_missing, reconcile_identity, reconcile_identities,
}
use selfu.Recon.Conservative.{kept, audit-kept}

-- All that a pass does not write: everything but aliases, identities, the log and what was done
-- outside.
unfoldable pub spared : World → World
spared w = record w {
  calls = 0;
  draws = 0;
  mail_aliases = [];
  mail_identities = [];
  audits = [];
  effects = [];
}

abbrev pub suspended : MailIdentity → MailIdentity
suspended m = record m { status = MailIdentityStatus.suspended }

kept-spared : (a b : World) → kept a ≡ kept b → spared a ≡ spared b
unfolding kept spared
kept-spared a b h = ap {B = World} (λ w. record w { mail_identities = [] }) h

pub kept-mail_identities : (a b : World) → kept a ≡ kept b → a.mail_identities ≡ b.mail_identities
unfolding kept
kept-mail_identities a b h = ap (λ w. w.mail_identities) h

-- The row is one of the table's.
abbrev pub IsRow : MailIdentity → List MailIdentity → Type 0
IsRow x [] = ⊥
IsRow x (y ∷ rows) = (x ≡ y) ⊎ IsRow x rows

module _ (d : Deps) (domain_id : Text) (rows : List MailIdentity) where
  -- The row is the same, or it was suspended since a row of the table with its id is an active identity
  -- of the domain whose address has no user at the mail server.
  IsFlagged : MailIdentity → MailIdentity → Type 0
  IsFlagged m m' =
      (m' ≡ m)
      ⊎ ((m' ≡ suspended m)
          × ((x : MailIdentity) × IsRow x rows
              × (x.id ≡ m.id)
              × (x.domain_id ≡ domain_id)
              × (is_active_identity x.status ≡ true)
              × ((n : ℕ) × (d.user_exists n x.address ≡ false))))

  -- Row by row; no row is added or removed.
  unfoldable pub IsFlagging : List MailIdentity → List MailIdentity → Type 0
  unfolding IsFlagged
  IsFlagging [] [] = Unit
  IsFlagging [] (m ∷ ms) = ⊥
  IsFlagging (m ∷ ms) [] = ⊥
  IsFlagging (m ∷ ms) (m' ∷ ms') = IsFlagged m m' × IsFlagging ms ms'

  IsFlagging-refl : (ms : List MailIdentity) → IsFlagging ms ms
  unfolding IsFlagging IsFlagged
  IsFlagging-refl [] = tt
  IsFlagging-refl (m ∷ ms) = (inl refl, IsFlagging-refl ms)

  IsFlagged-trans : (m m' m'' : MailIdentity) → IsFlagged m m' → IsFlagged m' m'' → IsFlagged m m''
  unfolding IsFlagged
  IsFlagged-trans m m' m'' (inl p) (inl q) = inl (q ∙ p)
  IsFlagged-trans m m' m'' (inr (p, why)) (inl q) = inr (q ∙ p, why)
  IsFlagged-trans m m' m'' (inl p) (inr (q, (x, row, same, own, active, missing))) =
      inr (q ∙ ap suspended p, (x, row, same ∙ ap (λ y. y.id) p, own, active, missing))
  IsFlagged-trans m m' m'' (inr (p, why)) (inr (q, more)) = inr (q ∙ ap suspended p, why)

  IsFlagging-trans :
      (xs ys zs : List MailIdentity) → IsFlagging xs ys → IsFlagging ys zs → IsFlagging xs zs
  unfolding IsFlagging
  IsFlagging-trans [] [] zs h k = k
  IsFlagging-trans [] (b ∷ ys) zs h k = absurd h
  IsFlagging-trans (a ∷ xs) [] zs h k = absurd h
  IsFlagging-trans (a ∷ xs) (b ∷ ys) [] h k = absurd k
  IsFlagging-trans (a ∷ xs) (b ∷ ys) (c ∷ zs) (h, hs) (k, ks) =
      (IsFlagged-trans a b c h k, IsFlagging-trans xs ys zs hs ks)

  -- Nothing but identities was written among what a pass is to spare, and they were at most flagged.
  unfoldable pub IsSparing : World → World → Type 0
  unfolding IsFlagging spared
  IsSparing w after = (spared after ≡ spared w) × IsFlagging w.mail_identities after.mail_identities

  pub IsSparing-refl : (w : World) → IsSparing w w
  unfolding IsSparing
  IsSparing-refl w = (refl, IsFlagging-refl w.mail_identities)

  pub IsSparing-trans : (a b c : World) → IsSparing a b → IsSparing b c → IsSparing a c
  unfolding IsSparing
  IsSparing-trans a b c (p, h) (q, k) =
      (q ∙ p, IsFlagging-trans a.mail_identities b.mail_identities c.mail_identities h k)

  -- What keeps identities, too, spares.
  pub kept-IsSparing : (w a b : World) → IsSparing w a → kept b ≡ kept a → IsSparing w b
  unfolding IsSparing
  kept-IsSparing w a b (p, h) k = (
    kept-spared b a k ∙ p,
    subst (λ rows. IsFlagging w.mail_identities rows) (sym (kept-mail_identities b a k)) h,
  )

  module _ (x : MailIdentity) (row : IsRow x rows) (own : x.domain_id ≡ domain_id)
      (active : is_active_identity x.status ≡ true) (n : ℕ)
      (missing : d.user_exists n x.address ≡ false) where
    update-IsFlagging :
        (ms : List MailIdentity) → IsFlagging ms (update_where (λ m. m.id == x.id) suspended ms)
    unfolding IsFlagging IsFlagged update_where
    update-IsFlagging [] = tt
    update-IsFlagging (m ∷ ms) = elim (Bool-cases (m.id == x.id)) [
      | inl e ↦ rw e (
        inr (refl, (x, row, sym ((==_iff m.id x.id).0 e), own, active, (n, missing))),
        update-IsFlagging ms,
      )
      | inr e ↦ rw e (inl refl, update-IsFlagging ms)
    ]

    marked-IsFlagging :
        (w : World) → IsSparing w (set_mail_identity_status d x.id MailIdentityStatus.suspended w).1
    unfolding set_mail_identity_status set_mail_identities IsSparing spared
    marked-IsFlagging w = elim (Bool-cases (d.fails w.calls)) [
      | inl up ↦ rw up (refl, IsFlagging-refl w.mail_identities)
      | inr up ↦ rw up (refl, update-IsFlagging w.mail_identities)
    ]

    flag_missing-IsSparing :
        (res : MailResult) (w : World) → IsSparing w (flag_missing d x (res, w)).1
    unfolding flag_missing
    flag_missing-IsSparing res w =
        let marked = (set_mail_identity_status d x.id MailIdentityStatus.suspended w).1 in
        kept-IsSparing w marked _ (marked-IsFlagging w) (audit-kept d _ marked)

  reconcile_identity-IsSparing :
      (x : MailIdentity) (s : MailResult × World)
      → IsRow x rows
      → x.domain_id ≡ domain_id
      → IsSparing s.1 (reconcile_identity d x s).1
  unfolding reconcile_identity mail_user_exists
  reconcile_identity-IsSparing x (res, w) row own =
      let once = kept-IsSparing w w (tick w) (IsSparing-refl w) (unfold kept in refl) in
      elim (Bool-cases (is_active_identity x.status)) [
        | inr off ↦ rw off (IsSparing-refl w)
        | inl active ↦ elim (Bool-cases (d.fails w.calls)) [
          | inl up ↦ rw (active, up) once
          | inr up ↦ elim (Bool-cases (d.user_exists w.calls x.address)) [
            | inl there ↦ rw (active, up, there) once
            | inr missing ↦
                rw (active, up, missing)
                  (IsSparing-trans w (tick w) (flag_missing d x (res, tick w)).1 once
                    (flag_missing-IsSparing x row own active w.calls missing res (tick w)))
          ]
        ]
      ]

  pub reconcile_identities-IsSparing :
      (xs : List MailIdentity) (s : MailResult × World)
      → All (λ x. IsRow x rows × (x.domain_id ≡ domain_id)) xs
      → IsSparing s.1 (reconcile_identities d xs s).1
  unfolding reconcile_identities
  reconcile_identities-IsSparing [] s h = IsSparing-refl s.1
  reconcile_identities-IsSparing (x ∷ xs) s h =
      let next = reconcile_identity d x s in
      IsSparing-trans s.1 next.1 (reconcile_identities d xs next).1
        (reconcile_identity-IsSparing x s h.0.0 h.0.1) (reconcile_identities-IsSparing xs next h.1)
