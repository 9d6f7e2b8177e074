-- ===== src/Agent/Users/Policies.antt =====
-- The policy that is written is the policy that the server enforces.
use selfu.Base.{
  ℕ, ◌≡◌, ◌≢◌, ap, sym, inl, inr, refl, Bool, true, false, not, ◌&&◌, ◌||◌, some, List, [], ◌∷◌,
  Text, ◌==◌, if◌then◌else◌, any, is_empty, split, split-append, split_none, split-ne-nil, All,
  Bool-cases,
}
use selfu.Base.{
  zero, suc, arith, Option, ◌+◌, ◌++◌, none, last_index_byte, drop, has_prefix, text, join, ◌∙◌,
}
use selfu.Agent.{
  file_path, Host, Disk, Request, AgentReply, answer, error, silence, write_file, make_dir,
}
use selfu.Agent.Contents.{content_of, write_file-content}
use selfu.Agent.Users.{
  policy_text, policies_dir, policy_path, handle_ensure_policy, after_last_at, post_data_hook,
}

-- What `grep -Fxq` documents: a line of the file is the text. A last line that is ended is followed by
-- no other.
unfoldable pub one_line_is : Text → List Text → Bool
unfolding ◌==◌
one_line_is wanted [] = false
one_line_is wanted (ln ∷ []) = if is_empty ln then false else ln == wanted
one_line_is wanted (ln ∷ next ∷ lines) =
    let rest = one_line_is wanted (next ∷ lines) in if ln == wanted then true else rest

unfoldable pub line_is : Text → Text → Bool
unfolding one_line_is split
line_is wanted content = one_line_is wanted (split b'\n' content)

-- What grep documents of a text that it does not take for an option or for several texts
abbrev pub IsGrep : (Text → Text → Bool) → Type 0
IsGrep grep =
    (p content : Text)
    → has_prefix p (text "-") ≡ false
    → All (λ c. c ≢ b'\n') p
    → grep p content ≡ line_is p content

one_line_is-cons :
    (wanted ln : Text) (lines : List Text)
    → lines ≢ []
    → one_line_is wanted (ln ∷ lines) ≡ (if ln == wanted then true else one_line_is wanted lines)
unfolding one_line_is
one_line_is-cons wanted ln [] h = absurd (h refl)
one_line_is-cons wanted ln (next ∷ lines) h = refl

if_or : (a b : Bool) → (if a then true else b) ≡ (a || b)
if_or true b = refl
if_or false b = refl

line_is-policy_text :
    (wanted : Text) (allowed : List Text)
    → All (All (λ c. c ≢ b'\n')) allowed
    → line_is wanted (policy_text allowed) ≡ any (λ a. a == wanted) allowed
unfolding line_is policy_text
line_is-policy_text wanted [] h = unfold one_line_is split in refl
line_is-policy_text wanted (a ∷ allowed) h =
    let ih = line_is-policy_text wanted allowed h.1 in
    rw
      (
        split-append b'\n' a (policy_text allowed),
        split_none b'\n' a h.0,
        one_line_is-cons wanted a (split b'\n' (policy_text allowed))
            (split-ne-nil b'\n' (policy_text allowed)),
        ih,
      )
      (if_or (a == wanted) (any (λ x. x == wanted) allowed))

-- The addresses that a list admits: those in it, and those of a domain that it has with an @ before it
abbrev pub admits : List Text → Text → Bool
admits allowed from =
    any (λ a. a == from) allowed
    || (not (is_empty (after_last_at from)) && any (λ a. a == b'@' ∷ after_last_at from) allowed)

drop-All : (P : ℕ → Type 0) (n : ℕ) (s : Text) → All P s → All P (drop n s)
drop-All P zero s h = h
drop-All P (suc n) [] h = h
drop-All P (suc n) (c ∷ s) h = drop-All P n s h.1

after_last_at-All : (P : ℕ → Type 0) (from : Text) → All P from → All P (after_last_at from)
unfolding after_last_at
after_last_at-All P from h = rest (last_index_byte from b'@')
  where
    rest : (at : Option ℕ) → All P (elim at [ some i ↦ drop (i + 1) from | none ↦ from ])
    rest none = h
    rest (some i) = drop-All P (i + 1) from h

module _ (grep : Text → Text → Bool) (greps : IsGrep grep) where
  hook-policy_text :
      (auth_as from : Text) (allowed : List Text) (s : Disk)
      → is_empty auth_as ≡ false
      → content_of (text "/etc/chasquid/policies/" ++ auth_as) s ≡ some (policy_text allowed)
      → All (All (λ c. c ≢ b'\n')) allowed
      → has_prefix from (text "-") ≡ false
      → All (λ c. c ≢ b'\n') from
      → post_data_hook grep auth_as from s ≡ admits allowed from
  unfolding post_data_hook
  hook-policy_text auth_as from allowed s known held plain word line =
      let domain = b'@' ∷ after_last_at from in
      let end : All (λ c. c ≢ b'\n') domain =
        (λ e. ground arith, after_last_at-All (λ c. c ≢ b'\n') from line) in
      let exact =
        greps from (policy_text allowed) word line ∙ line_is-policy_text from allowed plain in
      let whole =
        greps domain (policy_text allowed) (unfold has_prefix in refl) end
        ∙ line_is-policy_text domain allowed plain in
      elim (Bool-cases (is_empty (after_last_at from))) [
        | inl e ↦ rw (known, held, exact, e) (if_or (any (λ a. a == from) allowed) false)
        | inr e ↦ rw (known, held, exact, e, whole) (if_or (any (λ a. a == from) allowed) _)
      ]

silence-ne_answer :
    {s after : Disk} → ¬ (◌≡◌ {A = AgentReply (Unit {0}) × Disk} (silence, s) (answer tt, after))
silence-ne_answer h = differ (ap (λ r. r.0) h)
  where
    differ : ¬ (◌≡◌ {A = AgentReply (Unit {0})} silence (answer tt))
    differ q = cc

error-ne_answer :
    {status : ℕ} {s after : Disk}
    → ¬ (◌≡◌ {A = AgentReply (Unit {0}) × Disk} (error status, s) (answer tt, after))
error-ne_answer h = differ (ap (λ r. r.0) h)
  where
    differ : {n : ℕ} → ¬ (◌≡◌ {A = AgentReply (Unit {0})} (error n) (answer tt))
    differ q = cc

module _ (h : Host) (r : Request) (s after : Disk) (grep : Text → Text → Bool)
    (greps : IsGrep grep) where
  -- Once a policy was installed for an address, in the directory that the script reads, the script lets
  -- the user of that address send as exactly the allowed addresses, and as the addresses of the domains
  -- that are allowed whole. The sender does not begin with a dash, and neither it nor an allowed address
  -- has an end of line in it; for such texts grep does what it documents.
  pub handle_ensure_policy-enforced :
      h.conf ≡ text "/etc/chasquid"
      → handle_ensure_policy h (some r) s ≡ (answer tt, after)
      → All (All (λ c. c ≢ b'\n')) r.allowed_from
      → (from : Text) → has_prefix from (text "-") ≡ false
      → All (λ c. c ≢ b'\n') from
      → post_data_hook grep r.address from after ≡ admits r.allowed_from from
  unfolding handle_ensure_policy policy_path file_path join
  handle_ensure_policy-enforced conf ran plain from word line =
      elim (Bool-cases (is_empty r.address)) [
        | inl e ↦ absurd (silence-ne_answer (rw e at ran))
        | inr e ↦ elim (Bool-cases (make_dir h (policies_dir h) s).0) [
          | inr m ↦ absurd (error-ne_answer (rw (e, m) at ran))
          | inl m ↦
              let made = (make_dir h (policies_dir h) s).1 in
              let content = policy_text r.allowed_from in
              elim (Bool-cases (h.refused made.calls)) [
                | inl stuck ↦
                    let off : (write_file h (policy_path h r.address) content made).0 ≡ false =
                      unfold write_file in simp stuck refl in
                    absurd (error-ne_answer (rw (e, m, off) at ran))
                | inr up ↦
                    let (on, own, others) =
                      write_file-content h (policy_path h r.address) content made up in
                    let last = ap (λ x. x.1) (rw (e, m, on) at ran) in
                    let path : policy_path h r.address
                        ≡ text "/etc/chasquid/policies/" ++ r.address =
                      ap (λ conf. file_path (conf ∷ text "policies" ∷ r.address ∷ [])) conf in
                    let held =
                      ap (λ p. content_of p after) (sym path)
                      ∙ ap (content_of (policy_path h r.address)) (sym last)
                      ∙ own in
                    hook-policy_text grep greps r.address from r.allowed_from after e held plain
                      word line
              ]
        ]
      ]
