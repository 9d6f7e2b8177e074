-- ===== src/Domain/Names/Containment.antt =====
-- `HostnameWithinDomain` compares whole labels, never a part of one.
use selfu.Base.{
  ℕ, ◌≡◌, ◌≢◌, ◌⊎◌, ◌↔◌, inl, inr, refl, sym, ap, true, false, List, [], ◌∷◌, ◌++◌, ◌∙◌, ◌||◌,
  arith, Text, ◌==◌, ==_iff, eqb, eqb_iff, is_empty, Bool-cases, has_suffix, append_assoc, unsplit,
  split-append, split, split-ne-nil, cons_head, if◌then◌else◌,
}
use selfu.Domain.Names.{canonical, hostname_within_domain}

has_suffix_sound : (s t : Text) → has_suffix s t ≡ true → (p : Text) × (s ≡ p ++ t)
unfolding has_suffix
has_suffix_sound [] t h = ([], (==_iff [] t).0 h)
has_suffix_sound (c ∷ s) t h = elim (Bool-cases ((c ∷ s) == t)) [
  | inl e ↦ ([], (==_iff (c ∷ s) t).0 e)
  | inr e ↦ let (p, q) = has_suffix_sound s t (ground arith) in (c ∷ p, ap (λ u. c ∷ u) q)
]

has_suffix_self : (t : Text) → has_suffix t t ≡ true
unfolding has_suffix
has_suffix_self [] = ground (arith, ==_iff [] [])
has_suffix_self (c ∷ t) = ground (arith, ==_iff (c ∷ t) (c ∷ t))

has_suffix_complete : (p t : Text) → has_suffix (p ++ t) t ≡ true
unfolding has_suffix
has_suffix_complete [] t = has_suffix_self t
has_suffix_complete (c ∷ p) t = let ih = has_suffix_complete p t in rw ih (ground arith)

unsplit-split : (b : ℕ) (s : Text) → unsplit b (split b s) ≡ s
unfolding split
unsplit-split b [] = refl
unsplit-split b (c ∷ s) =
    go (Bool-cases (eqb c b)) (split b s) (split-ne-nil b s) (unsplit-split b s)
  where
    go :
        (eqb c b ≡ true) ⊎ (eqb c b ≡ false)
        → (parts : List Text) → parts ≢ []
        → unsplit b parts ≡ s
        → unsplit b (if eqb c b then [] ∷ parts else cons_head c parts) ≡ c ∷ s
    go e [] ne ih = absurd (ne refl)
    go (inl e) (q ∷ qs) ne ih = rw e (let same = (eqb_iff c b).0 e in cc)
    go (inr e) (q ∷ []) ne ih = rw e (ap (λ u. c ∷ u) ih)
    go (inr e) (q ∷ r ∷ rs) ne ih = rw e (ap (λ u. c ∷ u) ih)

unsplit-append :
    (b : ℕ) (p : Text) (ps qs : List Text)
    → qs ≢ []
    → unsplit b ((p ∷ ps) ++ qs) ≡ unsplit b (p ∷ ps) ++ (b ∷ unsplit b qs)
unsplit-append b p [] [] h = absurd (h refl)
unsplit-append b p [] (q ∷ qs) h = refl
unsplit-append b p (q ∷ ps) qs h = simp (unsplit-append b q ps qs h, append_assoc)

test_sound :
    (h d : Text)
    → (if h == d then true else has_suffix h (b'.' ∷ d)) ≡ true
    → (more : List Text) × (split b'.' h ≡ more ++ split b'.' d)
test_sound h d e = elim (Bool-cases (h == d)) [
  | inl same ↦ ([], ap (split b'.') ((==_iff h d).0 same))
  | inr other ↦
      let (p, q) = has_suffix_sound h (b'.' ∷ d) (rw other at e) in
      (split b'.' p, ap (split b'.') q ∙ split-append b'.' p d)
]

test_complete :
    (h d : Text) (more : List Text)
    → split b'.' h ≡ more ++ split b'.' d
    → (if h == d then true else has_suffix h (b'.' ∷ d)) ≡ true
test_complete h d [] e =
    let same : h ≡ d = cc (unsplit-split b'.' h, unsplit-split b'.' d, ap (unsplit b'.') e) in
    rw ((==_iff h d).1 same) refl
test_complete h d (m ∷ more) e =
    let whole : h ≡ unsplit b'.' (m ∷ more) ++ (b'.' ∷ d) =
      sym (unsplit-split b'.' h)
      ∙ ap (unsplit b'.') e
      ∙ unsplit-append b'.' m more (split b'.' d) (split-ne-nil b'.' d)
      ∙ ap (λ t. unsplit b'.' (m ∷ more) ++ (b'.' ∷ t)) (unsplit-split b'.' d) in
    let suffix : has_suffix h (b'.' ∷ d) ≡ true =
      rw whole (has_suffix_complete (unsplit b'.' (m ∷ more)) (b'.' ∷ d)) in
    rw suffix (ground arith)

-- The labels of a name in the form in which names are compared.
abbrev pub labels : Text → List Text
labels s = split b'.' (canonical s)

-- One name is within another exactly when neither is empty once trimmed and the labels of the first
-- end in all labels of the second: containment holds at label boundaries only.
pub hostname_within_domain_iff :
    (hostname domain_name : Text)
    → (hostname_within_domain hostname domain_name ≡ true) ↔ (
        (canonical hostname ≢ [])
        × (canonical domain_name ≢ [])
        × ((more : List Text) × (labels hostname ≡ more ++ labels domain_name)))
unfolding hostname_within_domain
hostname_within_domain_iff hostname domain_name = go (canonical hostname) (canonical domain_name)
  where
    go :
        (h d : Text)
        → ((if is_empty h || is_empty d
              then false
              else if h == d
              then true
              else has_suffix h (b'.' ∷ d))
            ≡ true)
          ↔ ((h ≢ []) × (d ≢ []) × ((more : List Text) × (split b'.' h ≡ more ++ split b'.' d)))
    go [] d = (λ e. cc, λ (ne, _, _). absurd (ne refl))
    go (c ∷ h) [] = (λ e. cc, λ (_, ne, _). absurd (ne refl))
    go (c ∷ h) (b ∷ d) = (
      λ e. (λ q. cc, λ q. cc, test_sound (c ∷ h) (b ∷ d) e),
      λ (_, _, (more, e)). test_complete (c ∷ h) (b ∷ d) more e,
    )
