-- ===== src/HttpApi/Setup/Status.antt =====
-- The state of the wizard as it is shown: `setupStatus` of internal/httpapi/setup_handlers.go.
use selfu.Base.{ℕ, Bool, not, ◌&&◌, Option, none, some, Text, if◌then◌else◌, is_empty, ltb}
use selfu.Domain.Entities.{DomainRow}
use selfu.Store.State.{Installation, PollNote}
use selfu.Store.Exec.{Deps, on}
use selfu.Store.Users.{admin_count}
use selfu.Store.Domains.{get_domain_by_id}
use selfu.Store.Setup.{get_installation, onboarded}
use selfu.HttpApi.{Handler, reply_json, internal_error}

-- The pending domain, with the provider and what the poller did last
pub record PendingDomain : Type 0 where
  pub domain : DomainRow
  pub provider : Text
  pub auto_verify : Option (ℕ × PollNote)

pub record SetupStatus : Type 0 where
  pub is_onboarded : Bool
  pub local_domain : Text
  pub bootstrap_email : Text
  pub admin_exists : Bool
  pub primary_domain : Option PendingDomain

module _ (d : Deps) (bootstrap_email : Text) where
  unfoldable pub show_status : Installation → ℕ → Option PendingDomain → Handler SetupStatus
  show_status inst admins pending w =
      reply_json 200
        (record {
          is_onboarded = onboarded inst;
          local_domain = inst.local_domain;
          bootstrap_email = bootstrap_email;
          admin_exists = ltb 0 admins;
          primary_domain = pending;
        })
        w

  unfoldable pub setup_status : Handler SetupStatus
  unfolding show_status
  setup_status w =
      on (get_installation d w)
        (λ inst w.
          on (admin_count d w)
            (λ admins w.
              if not (onboarded inst) && not (is_empty inst.primary_domain_id)
              then on (get_domain_by_id d inst.primary_domain_id w)
                  (λ x w.
                    show_status inst admins
                      (some (record {
                        domain = x;
                        provider = inst.access_provider;
                        auto_verify = w.last_verify;
                      }))
                      w)
                  (λ e w. show_status inst admins none w)
              else show_status inst admins none w)
            (λ e w. internal_error w))
        (λ e w. internal_error w)
