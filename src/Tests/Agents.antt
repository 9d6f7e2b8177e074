-- ===== src/Tests/Agents.antt =====
-- The theorems on the mail server's companion and on reconciliation.
use selfu.Base.{
  ℕ, ◌+◌, ◌≡◌, ◌≢◌, refl, Bool, true, false, Option, none, some, List, [], ◌∷◌, Text, text, ◌==◌,
  has_prefix, is_empty, if◌then◌else◌, arith, All, any, eqb,
}
use selfu.Store.State.{World}
use selfu.Store.Exec.{Deps}
use selfu.Agent.{Host, Disk, Request, answer}
use selfu.Agent.Contents.{content_of}
use selfu.Agent.Aliases.{equal_fold, aliases_path, set_alias}
use selfu.Agent.Aliases.Refine.{IsPlain, joined, file_view, set_alias-refines}
use selfu.Agent.Users.{post_data_hook, handle_ensure_policy}
use selfu.Agent.Users.Policies.{IsGrep, line_is, admits, handle_ensure_policy-enforced}
use selfu.Recon.{reconcile_domain}
use selfu.Recon.Flags.{spared, IsFlagging}
use selfu.Recon.Suspensions.{reconcile_domain-IsSparing}
use selfu.Tests.Fixtures.{steady, start}

abbrev host : Host
host = record {
  conf = text "/etc/chasquid";
  token = text "t";
  refused = λ n. false;
  util = λ n args files. record { succeeded = true; output = []; files = files };
  pkill = λ n. (true, []);
  pgrep = λ n. (true, text "1");
}

abbrev disk : Disk
disk = record {
  calls = 0;
  files =
      record {
        path = text "/etc/chasquid/domains/x.org/aliases";
        content = text "bob: bob@x.org\nInfo: eve@x.org\n";
      }
      ∷ [];
  dirs = [];
  signals = [];
}

abbrev both : List Text
both = text "ada@x.org" ∷ text "bob@x.org" ∷ []

plain : IsPlain (text "info") both
unfolding selfu.Base.is_space
plain = record {
  word = (refl, (refl, (refl, (refl, (refl, tt)))));
  no_colon = (λ e. ground arith, (λ e. ground arith, (λ e. ground arith, (λ e. ground arith, tt))));
  words = (
    (refl, (refl, (refl, (refl, (refl, (refl, (refl, (refl, (refl, (refl, tt)))))))))),
    ((refl, (refl, (refl, (refl, (refl, (refl, (refl, (refl, (refl, (refl, tt)))))))))), tt),
  );
}

abbrev path : Text
path = aliases_path host (text "x.org")

abbrev written : Bool × Disk
written = set_alias host (text "x.org") (text "info") both disk

set_alias-refines_example :
    (written.0 ≡ true)
    × ((k : Text)
        → file_view (content_of path written.1) k ≡ (
            if equal_fold k (text "info") then joined both else file_view (content_of path disk) k))
    × ((other : Text) → other ≢ path → content_of other written.1 ≡ content_of other disk)
set_alias-refines_example =
    set_alias-refines host (text "x.org") (text "info") both disk plain refl refl

abbrev policy : Request
policy = record {
  domain = [];
  address = text "bob@x.org";
  password = [];
  local = [];
  destinations = [];
  allowed_from = text "bob@x.org" ∷ text "@lists" ∷ [];
}

abbrev enforced : Disk
enforced = (handle_ensure_policy host (some policy) disk).1

installed : handle_ensure_policy host (some policy) disk ≡ (answer tt, enforced)
unfolding handle_ensure_policy
installed = refl

free : (s : Text) → any (λ c. eqb c b'\n') s ≡ false → All (λ c. c ≢ b'\n') s
free [] h = tt
free (c ∷ s) h =
    let head : eqb c b'\n' ≡ false = ground arith in
    let tail : any (λ x. eqb x b'\n') s ≡ false = ground arith in (ground arith, free s tail)

unbroken : All (All (λ c. c ≢ b'\n')) policy.allowed_from
unbroken = (free (text "bob@x.org") refl, (free (text "@lists") refl, tt))

-- A grep that finds nothing when its text looks like an option
abbrev grep : Text → Text → Bool
grep p content = if has_prefix p (text "-") then false else line_is p content

greps : IsGrep grep
greps p content word line = rw word refl

handle_ensure_policy-enforced_example :
    post_data_hook grep (text "bob@x.org") (text "eve@lists") enforced
    ≡ admits policy.allowed_from (text "eve@lists")
unfolding has_prefix
handle_ensure_policy-enforced_example =
    handle_ensure_policy-enforced host policy disk enforced grep greps refl installed unbroken
      (text "eve@lists") refl (free (text "eve@lists") refl)

-- No user is there.
abbrev deserted : Deps
deserted = record steady { user_exists = λ n address. false }

abbrev passed : World
passed = (reconcile_domain deserted (text "d1") (text "x.org") (text "o1") start).1

reconcile_domain-IsSparing_example :
    (spared passed ≡ spared start)
    × IsFlagging deserted
        (text "d1")
        start.mail_identities
        start.mail_identities
        passed.mail_identities
reconcile_domain-IsSparing_example =
    reconcile_domain-IsSparing deserted (text "d1") (text "x.org") (text "o1") start
