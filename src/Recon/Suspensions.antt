-- ===== src/Recon/Suspensions.antt =====
-- A pass of reconciliation is conservative: what it does to identities, and what it leaves alone.
use selfu.Base.{
  ◌≡◌, ap, subst, ◌∙◌, inl, inr, refl, List, [], ◌∷◌, Text, ◌==◌, ==_iff, Bool-cases, All,
}
use selfu.Store.State.{World, MailIdentity}
use selfu.Store.Exec.{Deps, Result-cases, got, fails-ne_got}
use selfu.Store.Exec.Tables.{select, order_by}
use selfu.Store.Exec.Tables.Rows.{order_by-All}
use selfu.Store.Mail.{list_mail_aliases_by_domain, list_mail_identities_by_domain}
use selfu.Recon.{MailResult, reload_mta, reconcile_aliases, reconcile_identities, reconcile_domain}
use selfu.Recon.Conservative.{kept, reload_mta-kept, reconcile_aliases-kept}
use selfu.Recon.Flags.{
  IsRow, spared, IsFlagging, kept-mail_identities, IsSparing, IsSparing-refl, IsSparing-trans,
  kept-IsSparing, reconcile_identities-IsSparing,
}

select-rows :
    (id : Text) (ms rows : List MailIdentity)
    → ((x : MailIdentity) → IsRow x ms → IsRow x rows)
    → All (λ x. IsRow x rows × (x.domain_id ≡ id)) (select (λ m. m.domain_id == id) ms)
unfolding select
select-rows id [] rows sub = tt
select-rows id (m ∷ ms) rows sub =
    let rest = select-rows id ms rows (λ x r. sub x (inr r)) in
    elim (Bool-cases (m.domain_id == id)) [
      | inl e ↦ rw e ((sub m (inl refl), (==_iff m.domain_id id).0 e), rest)
      | inr e ↦ rw e rest
    ]

got-eq : {xs ys : List MailIdentity} → got xs ≡ got ys → xs ≡ ys
got-eq h = cc

module _ (d : Deps) where
  list_aliases-kept : (id : Text) (w : World) → kept (list_mail_aliases_by_domain d id w).1 ≡ kept w
  unfolding list_mail_aliases_by_domain kept
  list_aliases-kept id w = elim (Bool-cases (d.fails w.calls)) [
    | inl up ↦ rw up refl
    | inr up ↦ rw up refl
  ]

  list_identities-kept :
      (id : Text) (w : World) → kept (list_mail_identities_by_domain d id w).1 ≡ kept w
  unfolding list_mail_identities_by_domain kept
  list_identities-kept id w = elim (Bool-cases (d.fails w.calls)) [
    | inl up ↦ rw up refl
    | inr up ↦ rw up refl
  ]

  -- The identities that a pass goes through are rows of the table, of its domain.
  list_identities-rows :
      (id : Text) (w after : World) (xs : List MailIdentity)
      → list_mail_identities_by_domain d id w ≡ (got xs, after)
      → All (λ x. IsRow x w.mail_identities × (x.domain_id ≡ id)) xs
  unfolding list_mail_identities_by_domain
  list_identities-rows id w after xs h =
      let key = λ (m : MailIdentity). m.address in
      let own = λ (m : MailIdentity). m.domain_id == id in
      elim (Bool-cases (d.fails w.calls)) [
        | inl up ↦ absurd (fails-ne_got (rw up at h))
        | inr up ↦
            let same : order_by key (select own w.mail_identities) ≡ xs =
              got-eq (ap (λ r. r.0) (rw up at h)) in
            subst (All (λ x. IsRow x w.mail_identities × (x.domain_id ≡ id))) same (
              order_by-All key (λ x. IsRow x w.mail_identities × (x.domain_id ≡ id)) _
                (select-rows id w.mail_identities w.mail_identities (λ x r. r)))
      ]

  -- A pass over a domain, whether it ends with a result or an error, adds and removes no identity: it
  -- leaves each as it is, or suspends it, which it does only if a row of the table before the pass, with
  -- the same id, is an active identity of this domain to whose address the mail server has, as it
  -- answers at some call, no user. No credential, no user, no membership, no domain and nothing else in
  -- the database is written, but for aliases and the log.
  pub reconcile_domain-IsSparing :
      (domain_id fqdn org : Text) (w : World)
      → (spared (reconcile_domain d domain_id fqdn org w).1 ≡ spared w)
        × IsFlagging d domain_id w.mail_identities w.mail_identities
            (reconcile_domain d domain_id fqdn org w).1.mail_identities
  unfolding reconcile_domain IsSparing
  reconcile_domain-IsSparing domain_id fqdn org w =
      let read = list_aliases-kept domain_id w in
      elim (Result-cases (list_mail_aliases_by_domain d domain_id w)) [
        | inr (e, w1, r) ↦ rw r (
            kept-IsSparing d domain_id w.mail_identities w w w1
              (IsSparing-refl d domain_id w.mail_identities w) (rw r at read))
        | inl (aliases, w1, r) ↦
            let zero : MailResult = record {
              aliases_restored = 0;
              group_aliases = 0;
              missing_users = [];
            } in
            let looped = reconcile_aliases d org fqdn aliases (zero, w1) in
            let w2 = (reload_mta d looped.1).1 in
            let k1 : kept w1 ≡ kept w = rw r at read in
            let k2 =
              reload_mta-kept d looped.1 ∙ reconcile_aliases-kept d org fqdn aliases (zero, w1) in
            let read' = list_identities-kept domain_id w2 in
            elim (Result-cases (list_mail_identities_by_domain d domain_id w2)) [
              | inr (e, w3, q) ↦
                  let k3 : kept w3 ≡ kept w2 = rw q at read' in
                  rw (r, q)
                    (kept-IsSparing d domain_id w.mail_identities w w w3
                      (IsSparing-refl d domain_id w.mail_identities w) (k3 ∙ k2 ∙ k1))
              | inl (identities, w3, q) ↦
                  let k3 : kept w3 ≡ kept w2 = rw q at read' in
                  let own =
                    subst (λ rows. All (λ x. IsRow x rows × (x.domain_id ≡ domain_id)) identities)
                      (kept-mail_identities w2 w (k2 ∙ k1))
                      (list_identities-rows domain_id w2 w3 identities q) in
                  rw (r, q)
                    (IsSparing-trans d domain_id w.mail_identities w w3
                      (reconcile_identities d identities (looped.0, w3)).1
                      (kept-IsSparing d domain_id w.mail_identities w w w3
                        (IsSparing-refl d domain_id w.mail_identities w) (k3 ∙ k2 ∙ k1))
                      (reconcile_identities-IsSparing d domain_id w.mail_identities identities
                        (looped.0, w3) own))
            ]
      ]
