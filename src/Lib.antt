-- ===== src/Lib.antt =====
-- selfu: a self-hosting platform that keeps organizations, their members, domains, mailboxes and
-- applications in a Postgres database, and mirrors them in authentik (identities), chasquid (mail)
-- and a DNS provider.
--
-- The parts of the program and the files that model them (paths from the repository's root):
--   * internal/domain (entities and validation): Domain/Roles, Domain/Statuses, Domain/Names,
--     Domain/Slugs, Domain/Addresses, Domain/Entities. A function has the name of its Go function in
--     snake case (NormalizeDomain is normalize_domain).
--   * internal/store (the database): Store/State has the tables as lists of rows in one record World;
--     Store/Users, Organizations, Groups, Externals, Invites, Setup, Domains and Mail have one
--     function per method of Store, which does what its SQL statement does, constraints, foreign keys
--     and cascades included. Store/Exec says what a call is, and Store/Exec/Tables what a statement
--     does to rows.
--   * internal/provision (mailboxes and secrets): Provision.
--   * internal/auth/session.go (session tokens): Auth, with base64, JSON and HMAC as parameters in a
--     record Codec.
--   * internal/deploy/deploy.go and internal/traefik/traefik.go: Deploy has the names that both derive
--     from instance ids, Deploy/Manifest is Validate of internal/catalog/catalog.go, and Deploy/Compose
--     renders the compose file of an instance.
--   * internal/httpapi (the handlers): HttpApi has replies, requireOrgRole and the audit log;
--     HttpApi/Accounts and HttpApi/Members model identity_handlers.go, HttpApi/Invitations
--     invite_handlers.go, HttpApi/Ownership domain_handlers.go, HttpApi/Mail (and its child Aliases)
--     mail_handlers.go, HttpApi/Onboarding onboard_handlers.go, HttpApi/Sealing crypto.go, and
--     HttpApi/Seams the interfaces to authentik. HttpApi/Setup is the wizard: its children Limiter,
--     Login, Status and Create model setup_handlers.go (and New of internal/access/access.go), Verify
--     models verify_poll.go, and Closed has all of its requests in one sequence.
--   * internal/recon and cmd/worker (reconciliation): Recon, with the worker in Recon/Worker.
--   * cmd/chasquid-agent (the companion of the mail server) and internal/chasquid (its client): Agent,
--     over a file system in a record Disk of its own, with its children Aliases, Users and Domains for
--     the handlers, and Client. chasquid-util, pkill and pgrep are parameters in a record Host, and so
--     is grep for the script that the server runs after DATA.
-- A handler calls the store and the seams, and the store works on World; a handler is a function from
-- World to a reply and a World. Theorems stand in child modules of what they are about, examples in
-- Tests, shared helpers in Base.
--
-- Conventions. Text is a list of bytes; Go's string functions follow Go on ASCII text. Every database
-- statement and every request to another system counts as a call, and `fails n` says that the n-th
-- call fails: a theorem that holds for every `fails` holds for every pattern of failures. A call that
-- fails changes nothing. Identifiers and random tokens come from `random`; two of them that are equal
-- are not treated as a clash of primary keys. The time of a request is one value, `now`, in seconds. The
-- hash function, the conversion of a name to ASCII (golang.org/x/net/idna), the answers of DNS
-- lookups and of authentik, and the keys of chasquid are parameters, fields of Deps. Loops are
-- structural recursion on lists, so no fuel is needed; a loop that waits for ticks until its context
-- ends is a run over the list of the ticks that come. Handlers, passes and ticks are taken one at a
-- time: what two requests that run at once do between each other's statements is not modelled.
--
-- Not modelled: created_at and updated_at, the text of error messages and logs, the `details` of
-- audit events, decoding of JSON (a body that cannot be decoded is `none`), cookies, the OIDC flow,
-- applications (their store, handlers and labels, the decoding of manifests), the clients of
-- authentik, Cloudflare and Route 53, listings, the web pages, and the commands but for the worker and the companion of the mail server:
-- they are I/O, or stand beside the flows that are modelled.
pub mod Base
pub mod Domain
pub mod Store
pub mod Provision
pub mod Auth
pub mod Deploy
pub mod HttpApi
pub mod Agent
pub mod Recon
pub mod Tests
