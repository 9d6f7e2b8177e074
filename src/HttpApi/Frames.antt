-- ===== src/HttpApi/Frames.antt =====
-- What the shared steps of the handlers leave alone.
use selfu.Base.{◌≡◌, arith}
use selfu.Store.State.{World, AuditEvent}
use selfu.Store.Exec.{Deps}
use selfu.HttpApi.{audit}

-- Writing an audit event changes the audit log only, besides the counters of calls and of draws.
pub audit-world :
    (d : Deps) (e : AuditEvent) (w : World)
    → ((audit d e w).users ≡ w.users)
      × ((audit d e w).memberships ≡ w.memberships)
      × ((audit d e w).group_memberships ≡ w.group_memberships)
      × ((audit d e w).invites ≡ w.invites)
      × ((audit d e w).domains ≡ w.domains)
      × ((audit d e w).mail_aliases ≡ w.mail_aliases)
      × ((audit d e w).mail_identities ≡ w.mail_identities)
      × ((audit d e w).mail_credentials ≡ w.mail_credentials)
      × ((audit d e w).effects ≡ w.effects)
      × ((audit d e w).hostnames ≡ w.hostnames)
unfolding audit
audit-world d e w = (
  ground arith,
  ground arith,
  ground arith,
  ground arith,
  ground arith,
  ground arith,
  ground arith,
  ground arith,
  ground arith,
  ground arith,
)
