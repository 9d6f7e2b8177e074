-- ===== src/Store/Domains.antt =====
-- Domains, hostnames and verification attempts: internal/store/domains.go.
use selfu.Base.{ℕ, Bool, ◌&&◌, Option, List, [], ◌∷◌, Text, ◌==◌, if◌then◌else◌, is_empty}
use selfu.Domain.Statuses.{DomainStatus}
use selfu.Domain.Entities.{DomainRow}
use selfu.Store.State.{World, Hostname}
use selfu.Store.Exec.{
  not_found, conflict, has_dependents, failed, Result, got, fails, Deps, Act, call, draw, found, on,
}
use selfu.Store.Exec.Tables.{find, select, update_where, delete_where, exists, order_by}

unfoldable pub set_domains : List DomainRow → World → World
set_domains rows w = record w { domains = rows }

unfoldable pub set_hostnames : List Hostname → World → World
set_hostnames rows w = record w { hostnames = rows }

-- `insertDomainSQL`
unfoldable pub insert_domain : DomainRow → Act DomainRow
unfolding set_domains
insert_domain x w =
    if exists (λ y. y.organization_id == x.organization_id && y.fqdn == x.fqdn) w.domains
    then (fails conflict, w)
    else if exists (λ o. o.id == x.organization_id) w.organizations
    then (got x, set_domains (x ∷ w.domains) w)
    else (fails failed, w)

-- `insertHostnameSQL`
unfoldable pub insert_hostname : Hostname → Act Hostname
unfolding set_hostnames
insert_hostname n w =
    if exists (λ m. m.domain_id == n.domain_id && m.hostname == n.hostname) w.hostnames
    then (fails conflict, w)
    else if exists (λ x. x.id == n.domain_id) w.domains
    then (got n, set_hostnames (n ∷ w.hostnames) w)
    else (fails failed, w)

-- A mail identity of the domain.
unfoldable pub hosts_identity : Text → World → Text → Bool
hosts_identity id w identity_id =
    exists (λ m. m.id == identity_id && m.domain_id == id) w.mail_identities

-- `DELETE FROM domains` with its cascades
unfoldable pub without_domain : Text → World → World
unfolding hosts_identity
without_domain id w = record w {
  domains = delete_where (λ x. x.id == id) w.domains;
  hostnames = delete_where (λ n. n.domain_id == id) w.hostnames;
  verifications = delete_where (λ v. v.domain_id == id) w.verifications;
  mail_domains = delete_where (λ m. m.domain_id == id) w.mail_domains;
  mail_identities = delete_where (λ m. m.domain_id == id) w.mail_identities;
  mail_credentials = delete_where (λ c. hosts_identity id w c.mail_identity_id) w.mail_credentials;
  mail_policies = delete_where (λ p. hosts_identity id w p.mail_identity_id) w.mail_policies;
  mail_aliases = delete_where (λ a. a.domain_id == id) w.mail_aliases;
  installation =
      if w.installation.primary_domain_id == id
      then record w.installation { primary_domain_id = [] }
      else w.installation;
}

module _ (d : Deps) where
  -- The row is pending, with a fresh token, whatever the caller says.
  unfoldable pub create_domain : DomainRow → Act DomainRow
  unfolding insert_domain
  create_domain x w =
      let drawn = draw d w in
      if is_empty x.id then with_token drawn.0 (draw d drawn.1) else with_token x.id drawn
    where
      with_token : Text → Text × World → Result DomainRow × World
      with_token id (token, w) =
          call d
            (insert_domain
              (record x { id = id; status = DomainStatus.pending; verification_token = token }))
            w

  unfoldable pub get_domain_by_id : Text → Act DomainRow
  get_domain_by_id id = call d (λ w. (found (find (λ x. x.id == id) w.domains), w))

  unfoldable pub get_domain_by_org_fqdn : Text → Text → Act DomainRow
  get_domain_by_org_fqdn org fqdn =
      call d (λ w. (found (find (λ x. x.organization_id == org && x.fqdn == fqdn) w.domains), w))

  unfoldable pub list_domains_by_org : Text → Act (List DomainRow)
  list_domains_by_org org =
      call d
        (λ w. (got (order_by (λ x. x.fqdn) (select (λ x. x.organization_id == org) w.domains)), w))

  unfoldable pub set_domain_status : Text → DomainStatus → Option ℕ → Act (Unit {0})
  unfolding set_domains
  set_domain_status id status at = call d (λ w.
      if exists (λ x. x.id == id) w.domains
      then (
        got tt,
        set_domains
            (update_where (λ x. x.id == id) (λ x. record x { status = status; verified_at = at })
              w.domains)
            w,
      )
      else (fails not_found, w))

  unfoldable pub log_verification : Text → Text → Text → Bool → Act (Unit {0})
  log_verification domain_id method detail success w =
      let drawn = draw d w in
      call d
        (λ w.
          if exists (λ x. x.id == domain_id) w.domains
          then (
            got tt,
            record w {
              verifications =
                  record {
                    domain_id = domain_id;
                    method = method;
                    success = success;
                    detail = detail;
                  }
                  ∷ w.verifications;
            },
          )
          else (fails failed, w))
        drawn.1

  unfoldable pub delete_domain : Text → Act (Unit {0})
  unfolding without_domain
  delete_domain id w =
      on (call d (λ w. (got (exists (λ n. n.domain_id == id) w.hostnames), w)) w)
        (λ bound w.
          if bound
          then (fails has_dependents, w)
          else call d
              (λ w.
                if exists (λ x. x.id == id) w.domains
                then (got tt, without_domain id w)
                else (fails not_found, w))
              w)
        (λ e w. (fails e, w))

  unfoldable pub add_hostname : Hostname → Act Hostname
  unfolding insert_hostname
  add_hostname n w =
      let drawn = draw d w in
      if is_empty n.id
      then call d (insert_hostname (record n { id = drawn.0 })) drawn.1
      else call d (insert_hostname n) w

  unfoldable pub get_hostname_by_id : Text → Act Hostname
  get_hostname_by_id id = call d (λ w. (found (find (λ n. n.id == id) w.hostnames), w))

  unfoldable pub list_hostnames_by_domain : Text → Act (List Hostname)
  list_hostnames_by_domain domain_id = call d (λ w.
      (got (order_by (λ n. n.hostname) (select (λ n. n.domain_id == domain_id) w.hostnames)), w))

  unfoldable pub remove_hostname : Text → Act (Unit {0})
  unfolding set_hostnames
  remove_hostname id = call d (λ w.
      if exists (λ n. n.id == id) w.hostnames
      then (got tt, set_hostnames (delete_where (λ n. n.id == id) w.hostnames) w)
      else (fails not_found, w))
