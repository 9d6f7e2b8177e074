-- ===== src/HttpApi/Ownership/Proof.antt =====
-- Proof of ownership: what `verifyDomain` and `addHostname` promise.
use selfu.Base.{
  ℕ, ◌+◌, refl, ◌≡◌, ◌⊎◌, inl, inr, sym, ap, ◌∙◌, true, some, List, ◌++◌, arith, subst, Bool-cases,
  Option-cases, Text, ◌==◌, ==_iff, is_empty, ok, Checked-cases,
}
use selfu.Domain.Roles.{OrgRole}
use selfu.Domain.Statuses.{is_verified}
use selfu.Domain.Names.{hostname_within_domain, normalize_domain}
use selfu.Domain.Names.Containment.{labels, hostname_within_domain_iff}
use selfu.Domain.Entities.{User, DomainRow}
use selfu.Store.State.{World, Hostname}
use selfu.Store.Exec.{Deps, tick}
use selfu.Store.Exec.Tables.{find}
use selfu.Store.Exec.Tables.Rows.{find-eq-some}
use selfu.Store.Domains.{insert_hostname, get_domain_by_id, add_hostname}
use selfu.HttpApi.{Reply, json, problem-ne_json}
use selfu.HttpApi.Access.{MayAct, require_org_role-json, require_org_role-cases}
use selfu.HttpApi.Ownership.{
  Verdict, verify_domain, verify_record_name, token_txt_value, look_up, bind, bind_hostname,
  checked_hostname,
}
use selfu.HttpApi.Ownership.Judged.{
  IsOneOf, proven_verdict, says_proven, verified_at, IsJudged, IsJudged-later, apart,
  look_up-IsJudged, proven, unproven,
}

-- What is needed of the state, and of the lookup, to verify the domain
abbrev pub IsOwned : Deps → User → Text → World → Type 0
IsOwned d actor id w =
    (x : DomainRow) × (find (λ y. y.id == id) w.domains ≡ some x)
    × MayAct actor x.organization_id OrgRole.admin w
    × ((n : ℕ) × ((n ≡ w.calls + 1) ⊎ (n ≡ w.calls + 1 + 1))
        × IsOneOf (token_txt_value x.verification_token)
            (d.txt_records n (verify_record_name x.fqdn)))

module _ (d : Deps) (actor : User) (id : Text) (w : World) where
  verify_domain-IsJudged : IsJudged (IsOwned d actor id w) id w (verify_domain d actor id w)
  unfolding verify_domain get_domain_by_id
  verify_domain-IsJudged = elim (Bool-cases (d.fails w.calls)) [
    | inl up ↦ rw up (IsJudged.unproven refl refl)
    | inr up ↦ elim (Option-cases (find (λ y. y.id == id) w.domains)) [
      | inl e ↦ rw (up, e) (IsJudged.unproven refl refl)
      | inr (x, e) ↦
          let (w1, later, guard) =
            require_org_role-cases d actor x.organization_id OrgRole.admin (look_up d actor x)
              (tick w) in
          let same = (==_iff x.id id).0 (find-eq-some (λ y. y.id == id) w.domains x e).0 in
          let rows : w1.domains ≡ w.domains = elim later [
            | inl q ↦ ap (λ v. v.domains) q
            | inr q ↦ ap (λ v. v.domains) q
          ] in
          let now : w1.now ≡ w.now = elim later [
            | inl q ↦ ap (λ v. v.now) q
            | inr q ↦ ap (λ v. v.now) q
          ] in
          let third : (w1.calls ≡ w.calls + 1) ⊎ (w1.calls ≡ w.calls + 1 + 1) = elim later [
            | inl q ↦ inl (ap (λ v. v.calls) q)
            | inr q ↦ inr (ap (λ v. v.calls) q)
          ] in
          elim guard [
            | inr (status, code, r) ↦ rw (up, e, r) (IsJudged.unproven refl rows)
            | inl (may, r) ↦
                let looked = look_up-IsJudged d actor x w1 in
                simp (up, e, r)
                  (IsJudged-later rows now (λ one. (x, refl, may, (w1.calls, third, one)))
                    (subst
                      (λ k.
                        IsJudged
                          (IsOneOf (token_txt_value x.verification_token)
                            (d.txt_records w1.calls (verify_record_name x.fqdn)))
                          k w1 (look_up d actor x w1))
                      same looked))
          ]
    ]
  ]

  -- A request that changes the table of domains, or whose reply is no error and does not have the field
  -- `verified` false, is by a platform admin or someone who holds a sufficient role in the organization
  -- of the domain, and one of the TXT records that its lookup, its second or third call, answered for
  -- the name of the domain's verification record is the text of the domain's own token. The domain is
  -- then verified at the time of the request, no other row is changed, and the reply says `verified`.
  pub verify_domain-record :
      (after : World) (reply : Reply Verdict)
      → verify_domain d actor id w ≡ (reply, after)
      → (says_proven reply ≡ true) ⊎ ¬ (after.domains ≡ w.domains)
      → IsOwned d actor id w
        × (after.domains ≡ verified_at id w.now w.domains)
        × (reply ≡ json 200 proven_verdict)
  verify_domain-record after reply h why = go (rw h at verify_domain-IsJudged) why
    where
      go :
          IsJudged (IsOwned d actor id w) id w (reply, after)
          → (says_proven reply ≡ true) ⊎ ¬ (after.domains ≡ w.domains)
          → IsOwned d actor id w
            × (after.domains ≡ verified_at id w.now w.domains)
            × (reply ≡ json 200 proven_verdict)
      go (proven said marked p) why = (p, marked, said)
      go (unproven said kept) (inl says) = absurd (apart (sym said ∙ says))
      go (unproven said kept) (inr changed) = absurd (changed kept)

bind-json :
    (d : Deps) (actor : User) (x : DomainRow) (norm : Text) (w w' : World) (status : ℕ)
    (n : Hostname)
    → bind d actor x (ok norm) w ≡ (json status n, w')
    → (n.hostname ≡ norm) × (n.domain_id ≡ x.id)
unfolding bind add_hostname insert_hostname
bind-json d actor x norm w w' status n h = (ground arith, ground arith)

checked_hostname-json :
    (d : Deps) (actor : User) (x : DomainRow) (hostname : Text) (w w' : World) (status : ℕ)
    (n : Hostname)
    → checked_hostname d actor x hostname w ≡ (json status n, w')
    → (is_verified x.status ≡ true)
      × (hostname_within_domain hostname x.fqdn ≡ true)
      × (normalize_domain d.to_ascii hostname ≡ ok n.hostname)
      × (n.domain_id ≡ x.id)
unfolding checked_hostname bind
checked_hostname-json d actor x hostname w w' status n h = elim (Bool-cases (is_empty hostname)) [
  | inl e ↦ absurd (problem-ne_json (rw e at h))
  | inr e ↦ elim (Bool-cases (is_verified x.status)) [
    | inr v ↦ absurd (problem-ne_json (rw (e, v) at h))
    | inl v ↦ elim (Bool-cases (hostname_within_domain hostname x.fqdn)) [
      | inr i ↦ absurd (problem-ne_json (rw (e, v, i) at h))
      | inl i ↦ elim (Checked-cases (normalize_domain d.to_ascii hostname)) [
        | inr (m, c) ↦ absurd (problem-ne_json (rw (e, v, i, c) at h))
        | inl (norm, c) ↦
            let (k, o) = bind-json d actor x norm w w' status n (rw (e, v, i, c) at h) in
            (v, i, c ∙ ap ok (sym k), o)
      ]
    ]
  ]
]

module _ (d : Deps) (actor : User) (id hostname : Text) where
  -- A hostname is bound only under a verified domain, by a platform admin or someone with a
  -- sufficient role in its organization; the labels of the hostname of the request end in all the
  -- labels of the domain, and what is stored is that hostname, normalized.
  pub bind_hostname-within :
      (w w' : World) (status : ℕ) (n : Hostname)
      → bind_hostname d actor id (some hostname) w ≡ (json status n, w')
      → (x : DomainRow) × (find (λ y. y.id == id) w.domains ≡ some x)
        × (n.domain_id ≡ x.id)
        × MayAct actor x.organization_id OrgRole.admin w
        × (is_verified x.status ≡ true)
        × ((more : List Text) × (labels hostname ≡ more ++ labels x.fqdn))
        × (normalize_domain d.to_ascii hostname ≡ ok n.hostname)
  unfolding bind_hostname get_domain_by_id
  bind_hostname-within w w' status n h = elim (Bool-cases (d.fails w.calls)) [
    | inl up ↦ absurd (problem-ne_json (rw up at h))
    | inr up ↦ elim (Option-cases (find (λ y. y.id == id) w.domains)) [
      | inl e ↦ absurd (problem-ne_json (rw (up, e) at h))
      | inr (x, e) ↦
          let (may, (w1, same, ran)) =
            require_org_role-json d actor x.organization_id OrgRole.admin
              (λ w. checked_hostname d actor x hostname w) (tick w) w' status n (rw (up, e) at h) in
          let (v, i, c, o) = checked_hostname-json d actor x hostname w1 w' status n ran in
          (x, e, o, may, v, ((hostname_within_domain_iff hostname x.fqdn).0 i).2, c)
    ]
  ]
