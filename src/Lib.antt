-- ===== src/Lib.antt =====
-- A verification library for openbao-cloud-creds, the OpenBao secrets engines that mint short-lived cloud
-- credentials.
--
-- Every engine (plugins/credential-*) is built on the shared packages under pkg/. These packages are
-- modelled, and two of the engines on them: that of Vultr, which mints a user for each request, and that
-- of OCI, which rotates a few tokens by schedule and serves the freshest one; and of that of Exoscale
-- how it sweeps the minters that were rotated out. A request names a role. The engine checks the caller
-- against it (pkg/lineage, pkg/requester), orders the minters (pkg/minteraffinity), and asks the first
-- one that its state machine lets through (pkg/recovery) and that has room (pkg/mintercapacity) for a
-- credential whose name carries the mount's tag (pkg/ownertag). The answer of the cloud is classified
-- (pkg/credenvelope/errors.go) and fed back to the state machine. A credential is noted in the mint
-- ledger (pkg/mintledger), recorded in the mount's storage, and returned in an envelope
-- (pkg/credenvelope/envelope.go). In the background the reconciler (pkg/reconciler) deletes upstream
-- entities that no record tracks, pkg/localexpiry removes records whose credential has expired, and a
-- purge (pkg/upstreampurge) deletes what a role has issued. A configuration write first probes the
-- minters it binds (pkg/capability), through the same state machines. The background work is done by
-- workers (pkg/worker).
--
-- Parts:
--   Base         shared names, Boolean tests, texts as lists of bytes, sorting; Base/Maps has maps with a
--                text as key, and Base/Decimal what `strconv` does with decimal integers.
--   Storage      `logical.Storage` as an interface with its laws; Storage/Memory meets them.
--   Errors       pkg/credenvelope/errors.go: `classify_transport`, `classify_upstream` and `classify` for
--                ClassifyTransport, ClassifyUpstream and Classify, `code_of`, `response_for`. An error
--                is the chain of links that errors.As and errors.Is look for.
--   Recovery     pkg/recovery/state.go and ratelimit.go: the state machine of a minter. One function
--                per critical section: `record_success`, `record_error`, `strike`, `release_probe`,
--                `record_missing`, `try_acquire`; an interleaving of callers is a list of these.
--   Reconciler   pkg/reconciler/reconciler.go: `run` for Run, one entity at a time by `visit`.
--   Purge        pkg/upstreampurge/upstreampurge.go: `scan` and `pass` for Scan and Pass. Purge/Intents
--                is intent.go (`arm`, `advance`, `progress`) with SaveIntent and LoadIntent, and
--                Purge/Endpoint is endpoint.go (`write`, `read`, `sweep`).
--   Ownership    pkg/ownertag/ownertag.go: `fit_name`, `credential_name`, `owns`, `instance_id`.
--   Caller       Caller/Lineage is pkg/lineage/lineage.go, Caller/Requester is pkg/requester/requester.go.
--   Capability   pkg/capability/capability.go: `dedupe`, `roles_bound_to`, and in Capability/Probes
--                `verify` for Runner.Verify; Capability/Cache is cache.go, Capability/Limiter is
--                limiter.go, Capability/Gate is gate.go.
--   Expiry       pkg/localexpiry/localexpiry.go.
--   Capacity     pkg/mintercapacity/mintercapacity.go.
--   Affinity     pkg/minteraffinity/affinity.go: `order` for Order.
--   Issued       pkg/issuedlist/issuedlist.go: `list_issued` for the list handler, one prefix at a time by
--                `read_prefixes`; `show_cursor` and `parse_cursor` for String and parseCursor.
--   Minters      pkg/cloudconfig/minter.go, owned.go, role.go and schema.go: what a configuration write
--                accepts and keeps. Minters/Owned has `minter_upstream_ids` for MinterUpstreamIDs, which
--                the registries of the engines hand to the reconciler.
--   Envelope     pkg/credenvelope/kind.go and envelope.go: the kinds of credentials and scopes, and
--                `new_envelope` and `to_map` for NewEnvelope and ToMap.
--   Ledger       pkg/mintledger/mintledger.go: `note_mint`, `created_at` and `prune` for Record, CreatedAt and
--                Prune.
--   Worker       pkg/worker/worker.go: `run` and `invoke`, a goroutine as a function of what its selects
--                receive.
--   Vultr        plugins/credential-vultr: what the engine keeps in memory and in storage, and the calls that
--                it makes. Vultr/Pool is the selection of a minter, Vultr/Creds path_creds.go
--                (`creds_read`, `creds_revoke`), Vultr/Sets path_minter_sets.go (`minter_set_write`,
--                `load_minter_set`), Vultr/Roles path_roles.go (`role_write`) and Vultr/Reclaim
--                path_reconcile.go and the registry and the lister (`path_reconcile`). Vultr/Operation
--                has the handlers as steps, in any order.
--   Oci          plugins/credential-oci: Oci/Slots is slots.go and the rotation of workers.go
--                (`initialize_slots`, `rotate_slot`, `freshest_slot`), Oci/Creds is path_creds.go
--                (`creds_read`).
--   Totp         pkg/totp: `code` for Code, and `parse_seed` for ParseSeed.
--   Exoscale     plugins/credential-exoscale/minter_retire.go: `sweep_retired_minters` for
--                sweepRetiredMinters, one set at a time by `sweep_set`.
--
-- What comes from outside is an argument: the storage, the answers of the cloud (which may depend on all the
-- calls before), the clock, the random draws, the SHA-256 digest, and OpenBao's view of its
-- entities. Storage is used through named laws: a read that succeeds tells the content, a write that
-- succeeds changes its key alone. Any call of it may fail. An engine is handed a world, which is its memory,
-- its storage and the list of the calls that it has made to the cloud, and an environment,
-- which answers each call by that list.
--
-- Times and durations are natural numbers of nanoseconds, and the zero time is 0. A request reads the clock
-- once. The ledger, the records and the passwords of Totp count seconds since 1970, as the source does; the
-- ledger's are turned into such times. Times before the epoch and wrap-around of 64-bit durations and of the
-- seconds of a garbage ledger entry are not modelled, nor is what encoding/json does to invalid UTF-8
-- or to years above 9999. Every loop runs over a list or counts down a number and is structural
-- recursion. One function has fuel: the digits of a number n are written with n + 1, which is
-- enough, as n / 10 is below n unless n is 0.
-- Sorting is by insertion, which on a total order gives the list that any sort gives.
--
-- Not modelled: the engines of the other seven clouds, and of Exoscale's all but the sweep, as their own
-- code is mostly the requests of one cloud's API; of the engines of Vultr and OCI the configuration
-- endpoints, the assembly of probes and the purge endpoint's registry, and of OCI's also the roles,
-- minter sets and reconciler; the manager of pkg/worker; pkg/cloudhttp and pkg/telemetry, which only
-- call libraries; pkg/upstreamquota, pkg/clusterrole and the configuration endpoints of pkg/cloudconfig,
-- which are not covered; the test harnesses; log lines and the wording of error messages. Of white
-- space, what needs more than one byte is left out.
pub mod Base
pub mod Errors
pub mod Recovery
pub mod Reconciler
pub mod Storage
pub mod Purge
pub mod Ownership
pub mod Caller
pub mod Capability
pub mod Expiry
pub mod Capacity
pub mod Minters
pub mod Affinity
pub mod Issued
pub mod Envelope
pub mod Ledger
pub mod Vultr
pub mod Oci
pub mod Worker
pub mod Exoscale
pub mod Totp
