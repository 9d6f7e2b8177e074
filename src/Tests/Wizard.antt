-- ===== src/Tests/Wizard.antt =====
-- The theorems on the wizard, at a small installation that waits for its primary domain.
use selfu.Base.{
  ℕ, ◌≤◌, ◌+◌, ◌≡◌, ◌≢◌, inl, inr, refl, Bool, true, false, Option, none, some, List, [], ◌∷◌, Text,
  text, ◌==◌, All, is_empty, any, ltb, arith, if◌then◌else◌, length, ◌||◌,
}
use selfu.Domain.Statuses.{DomainStatus}
use selfu.Domain.Entities.{DomainRow}
use selfu.Store.State.{World}
use selfu.Store.Exec.{Deps}
use selfu.Store.Exec.Tables.{find}
use selfu.Store.Setup.{onboarded, stored_provider}
use selfu.Base.{inr}
use selfu.HttpApi.{Reply, json}
use selfu.HttpApi.Ownership.{verify_record_name}
use selfu.HttpApi.Setup.Limiter.{Client, client_key, allow}
use selfu.HttpApi.Setup.Login.{LoginConfig}
use selfu.HttpApi.Setup.Login.Guesses.{Attempt, IsWrong, wrong_guesses, wrong_guesses-bound}
use selfu.HttpApi.Setup.Verify.{SetupVerdict, done, run_verify_setup, verification_poller}
use selfu.HttpApi.Setup.Verify.Pending.{IsPending, IsPrimary}
use selfu.HttpApi.Setup.Verify.Poller.{IsSteady, verification_poller-ends}
use selfu.HttpApi.Setup.Verify.Sound.{IsEntitled, run_verify_setup-record}
use selfu.Tests.Fixtures.{steady, start, site}

abbrev unproven : DomainRow
unproven = record site { status = DomainStatus.pending }

abbrev pub waiting : World
waiting = record start {
  domains = unproven ∷ [];
  installation = record start.installation { primary_domain_id = text "d1" };
}

-- The first three calls fail.
abbrev flaky : Deps
flaky = record steady { fails = λ n. ltb n 3 }

abbrev record_name : Text
record_name = text "_platform-verification.x.org"

abbrev record_value : Text
record_value = text "platform=tok"

settles : IsSteady record_name record_value flaky 3
unfolding ◌==◌
settles = (refl, λ n h. (ground arith, refl))

waiting-IsPending : IsPending record_name record_value waiting
unfolding IsPending IsPrimary find ◌==◌ verify_record_name selfu.Base.trim_suffix
    selfu.HttpApi.Ownership.token_txt_value
waiting-IsPending = (unproven, (refl, refl, refl, refl, refl))

verification_poller-ends_example :
    ((verification_poller flaky (110 ∷ 120 ∷ 130 ∷ 140 ∷ []) waiting).0 ≡ true)
    × (onboarded (verification_poller flaky (110 ∷ 120 ∷ 130 ∷ 140 ∷ []) waiting).1.installation
        ≡ true)
verification_poller-ends_example =
    verification_poller-ends record_name record_value flaky 3 settles 110 (120 ∷ 130 ∷ 140 ∷ [])
      waiting waiting-IsPending (omega arith)

abbrev attempt_now : Reply SetupVerdict × World
attempt_now = run_verify_setup steady [] waiting

succeeds : attempt_now ≡ (json 200 done, attempt_now.1)
unfolding run_verify_setup selfu.Store.Setup.get_installation selfu.Store.Domains.get_domain_by_id
    find ◌==◌ selfu.Store.Domains.set_domain_status selfu.Store.Exec.Tables.exists
    selfu.Store.Setup.set_installation_onboarded selfu.Store.Domains.log_verification
    selfu.Store.Exec.Tables.update_where
succeeds = refl

run_verify_setup-record_example : IsEntitled steady waiting
run_verify_setup-record_example =
    (run_verify_setup-record steady [] waiting attempt_now.1 (json 200 done) succeeds (inr refl)).0

abbrev pub login_config : LoginConfig
login_config = record {
  bootstrap_password = text "correct";
  bootstrap_email = [];
  split_host_port = λ s. none;
  codec = record {
    to_base64 = λ s. s;
    of_base64 = λ s. some s;
    marshal = λ user exp. user;
    unmarshal = λ s. none;
    hmac_sha256 = λ key s. key;
    sha256 = λ s. s;
  };
  sessions = record { name = text "selfu_session"; key = text "k"; ttl = 3600 };
}

abbrev pub laptop : Client
laptop = record { forwarded_for = text " 10.0.0.7 , 10.0.0.1"; remote_addr = text "10.0.0.1:80" }

abbrev wrong : ℕ → Attempt
wrong at = record { at = at; from = laptop; body = some (text "guess") }

abbrev tries : List Attempt
tries = wrong 100 ∷ wrong 110 ∷ wrong 155 ∷ []

All-IsWrong : All (IsWrong steady login_config (text "10.0.0.7") 100) tries
unfolding IsWrong
All-IsWrong = (
  (omega arith, omega arith, inr (λ e. cc)),
  ((omega arith, omega arith, inr (λ e. cc)), ((omega arith, omega arith, inr (λ e. cc)), tt)),
)

wrong_guesses-bound_example :
    (wrong_guesses steady login_config (text "10.0.0.7") tries start ≤ 20)
    × (start.login_fails (text "10.0.0.7") ≡ none
        → wrong_guesses steady login_config (text "10.0.0.7") tries start ≤ 10)
wrong_guesses-bound_example =
    wrong_guesses-bound steady login_config (text "10.0.0.7") 100 tries start All-IsWrong

three : wrong_guesses steady login_config (text "10.0.0.7") tries start ≡ 3
unfolding wrong_guesses selfu.Store.Setup.get_installation allow ◌==◌ client_key
    selfu.Base.index_byte selfu.HttpApi.audit selfu.HttpApi.Setup.Limiter.record_fail
three = refl
