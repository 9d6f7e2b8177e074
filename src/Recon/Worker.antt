-- ===== src/Recon/Worker.antt =====
-- The background worker: cmd/worker/main.go, `SyncExternal` of internal/recon/external.go, and
-- `ListActiveMailDomains` of internal/store/mail_recon.go. The loop is a run over its ticks, up to the
-- end of its context.
use selfu.Base.{ℕ, Bool, Option, none, some, List, [], ◌∷◌, ◌++◌, Text, text, ◌==◌, if◌then◌else◌}
use selfu.Domain.Statuses.{ExternalStatus, is_active_mail}
use selfu.Domain.Entities.{DomainRow}
use selfu.Store.State.{World, MailDomain, ExternalResource, ResourceType}
use selfu.Store.Exec.{got, fails, Deps, Act, call, on}
use selfu.Store.Exec.Tables.{select, order_by}
use selfu.Store.Externals.{set_external_observed, same_type}
use selfu.Recon.{reconcile_domain}

-- The domains of active mail domains
unfoldable pub joined_domains : List DomainRow → List MailDomain → List DomainRow
joined_domains domains [] = []
joined_domains domains (m ∷ ms) =
    let rest = joined_domains domains ms in
    if is_active_mail m.status then select (λ x. x.id == m.domain_id) domains ++ rest else rest

-- The stored word of a type
abbrev pub type_word : ResourceType → Text
type_word ResourceType.authentik_user = text "authentik_user"
type_word ResourceType.authentik_group = text "authentik_group"
type_word ResourceType.authentik_application = text "authentik_application"
type_word ResourceType.authentik_provider = text "authentik_provider"

-- `providerByObject[platform_object_id]`: the last provider row of the object wins.
unfoldable pub provider_of : Text → List ExternalResource → Option Text
unfolding same_type
provider_of object [] = none
provider_of object (r ∷ rows) = elim (provider_of object rows) [
  | some pk ↦ some pk
  | none ↦
      if same_type r.resource_type ResourceType.authentik_provider
      then if r.platform_object_id == object then some r.external_id else none
      else none
]

-- What is asked for: an application is looked for by its provider.
unfoldable pub check_target : ExternalResource → List ExternalResource → ResourceType × Text
unfolding provider_of same_type
check_target r rows =
    if same_type r.resource_type ResourceType.authentik_application
    then elim (provider_of r.platform_object_id rows) [
      | some pk ↦ (ResourceType.authentik_provider, pk)
      | none ↦ (r.resource_type, r.external_id)
    ]
    else (r.resource_type, r.external_id)

module _ (d : Deps) where
  unfoldable pub list_active_mail_domains : Act (List DomainRow)
  unfolding joined_domains
  list_active_mail_domains =
      call d (λ w. (got (order_by (λ x. x.fqdn) (joined_domains w.domains w.mail_domains)), w))

  unfoldable pub list_external_by_provider : Text → Act (List ExternalResource)
  list_external_by_provider provider = call d (λ w. (
    got (
        order_by (λ r. type_word r.resource_type)
          (select (λ r. r.provider == provider) w.externals)),
    w,
  ))

  unfoldable pub observed_hash : ResourceType → Text → Text
  observed_hash type external_id = d.sha256_hex (type_word type ++ (text ":" ++ external_id))

  -- The loop over the domains; the mail server may not be configured.
  unfoldable pub reconcile_each : List DomainRow → World → World
  unfolding reconcile_domain
  reconcile_each [] w = w
  reconcile_each (x ∷ domains) w =
      reconcile_each domains (reconcile_domain d x.id x.fqdn x.organization_id w).1

  unfoldable pub reconcile_once : Act (Unit {0})
  unfolding list_active_mail_domains reconcile_each
  reconcile_once w =
      on (list_active_mail_domains w)
        (λ domains w. (got tt, if d.has_chasquid then reconcile_each domains w else w))
        (λ e w. (fails e, w))

  module _ (resource_exists : ℕ → ResourceType → Text → Bool) where
    unfoldable pub check_resource : ResourceType × Text → Act Bool
    check_resource (type, external_id) w =
        call d (λ w'. (got (resource_exists w.calls type external_id), w')) w

    unfoldable pub sync_row : List ExternalResource → ExternalResource → World → World
    unfolding check_resource check_target set_external_observed observed_hash
    sync_row rows r w =
        on (check_resource (check_target r rows) w)
          (λ there w.
            if there
            then (set_external_observed d r.id ExternalStatus.active
                (observed_hash r.resource_type r.external_id) [] w).1
            else (set_external_observed d r.id ExternalStatus.failed
                (observed_hash r.resource_type r.external_id) (text "resource missing in provider")
                w).1)
          (λ e w. w)

    unfoldable pub sync_rows : List ExternalResource → List ExternalResource → World → World
    unfolding sync_row
    sync_rows all [] w = w
    sync_rows all (r ∷ rows) w = sync_rows all rows (sync_row all r w)

    unfoldable pub sync_external : Text → Act (Unit {0})
    unfolding list_external_by_provider sync_rows
    sync_external provider w =
        on (list_external_by_provider provider w) (λ rows w. (got tt, sync_rows rows rows w))
          (λ e w. (fails e, w))

    -- One cycle: neither failure stops the loop.
    unfoldable pub cycle : Text → World → World
    unfolding reconcile_once sync_external
    cycle issuer w = (sync_external issuer (reconcile_once w).1).1

    -- At once, and then at each tick
    unfoldable pub worker : Text → List ℕ → World → World
    unfolding cycle
    worker issuer [] w = cycle issuer w
    worker issuer (at ∷ ticks) w = worker issuer ticks (record (cycle issuer w) { now = at })
