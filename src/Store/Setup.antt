-- ===== src/Store/Setup.antt =====
-- The row of the installation: internal/store/setup.go. The row that the migration inserts is there.
use selfu.Base.{
  ℕ, Bool, true, false, ◌&&◌, ◌||◌, Option, none, some, Text, text, ◌==◌, if◌then◌else◌,
}
use selfu.Store.State.{World, Installation}
use selfu.Store.Exec.{not_found, failed, got, fails, Deps, Act, call}
use selfu.Store.Exec.Tables.{exists}

abbrev pub onboarded : Installation → Bool
onboarded i = go i.onboarded_at
  where
    go : Option ℕ → Bool
    go none = false
    go (some t) = true

unfoldable pub set_installation : Installation → World → World
set_installation i w = record w { installation = i }

-- The values that the CHECK constraints of migration 00008 let into a provider column
unfoldable pub stored_provider : Text → Bool
stored_provider p = p == text "manual" || p == text "cloudflare"

module _ (d : Deps) where
  unfoldable pub get_installation : Act Installation
  get_installation = call d (λ w. (got w.installation, w))

  unfoldable pub set_installation_primary_domain : Text → Act (Unit {0})
  unfolding set_installation
  set_installation_primary_domain id = call d (λ w.
      if onboarded w.installation
      then (fails not_found, w)
      else if exists (λ x. x.id == id) w.domains
      then (got tt, set_installation (record w.installation { primary_domain_id = id }) w)
      else (fails failed, w))

  unfoldable pub set_installation_provider : Text → Text → Text → Act (Unit {0})
  unfolding set_installation stored_provider
  set_installation_provider dns_provider access_provider config = call d (λ w.
      if onboarded w.installation
      then (fails not_found, w)
      else if stored_provider dns_provider && stored_provider access_provider
      then (
        got tt,
        set_installation
            (record w.installation {
              dns_provider = dns_provider;
              access_provider = access_provider;
              provider_config = config;
            })
            w,
      )
      else (fails failed, w))

  unfoldable pub get_installation_config : Act Text
  get_installation_config = call d (λ w. (got w.installation.provider_config, w))

  unfoldable pub set_installation_onboarded : ℕ → Act (Unit {0})
  unfolding set_installation
  set_installation_onboarded at = call d (λ w.
      if onboarded w.installation
      then (got tt, w)
      else (got tt, set_installation (record w.installation { onboarded_at = some at }) w))
