-- ===== src/Lib.antt =====
-- giosk: the core of a multi-tenant GPU console. Its backend is one process of packages under
-- backend/internal that share a MySQL database, beside a gateway process that passes users on to
-- their sessions and an agent on every node that keeps the volumes.
--
-- What is modelled, by file:
--   Prelude: shared names, Boolean tests, signed integers, tables as lists of rows, texts.
--   Authz: backend/internal/authz/authz.go. `Scope` is the console scope of a request (RequireManager,
--     RequirePlatform, RequireOrgInScope, RequireGroupInScope), `Role` the roles in a group.
--   Policy: backend/internal/policy. `Resolver` is the Resolver of policy.go, `Admin` the
--     handlers of handler.go that save limits; they ask Authz for the scope of the caller.
--   Wallet: backend/internal/wallet. `Db` has the tables and what a failing statement does, `Store`
--     the ledger transactions of repo.go, `Pool` the organisation's pool of backend/internal/org,
--     `Service` the operations of service.go, `Refill` the periodic refill of refill.go and
--     `Refill/Schedule` its settings.
--   TopUp: backend/internal/topup and backend/cmd/api/crediter.go, on top of Wallet.
--   Gateway: backend/internal/gateway. `Nonce` is the cache of used tokens, `Token` Sign and Verify,
--     `Proxy` the decisions of the web and the SSH proxy.
--   Csi: backend/internal/csi/gc.go, the collector of orphaned images and mounts.
--   Session: backend/internal/session. `Billing` is the biller of service.go (billOnce, settle, settleStorage), which
--     charges through Wallet; `Limits` the gate of Create, which asks Policy; `Lifecycle` stopSession and
--     autoStop; `Lease` the leases of the dynamic mode, with Extend and reapLeaseOnce, which stops by
--     autoStop; `HomeReaper` the choice of homereaper.go.
--   Resource: backend/internal/resource/availability.go. `Counter` is the counters over the sessions,
--     `Availability` the free GPUs by node and by type, `Placement` CanPlace and NodeSupports;
--     `ShareMode` the share modes of backend/internal/k8s/mapper.go. `Placement/Booking` is the life
--     of a session as the counters see it, a step relation with the scheduler as the environment.
--   Volume: backend/internal/volume. `Store` has the tables of volumes and shares and the statements of
--     repo.go, `Quota` the operations of service.go, `Sharing` Share and the VolumeAccess of
--     backend/internal/session/repo.go, `Billing` the storage biller, which charges through Wallet.
--   Notify: backend/internal/notify/engine.go. `Engine` is the ticks of the alert engine with the map of
--     last firings, and a journal of the notices.
-- Definitions stand in the file of their component, theorems in its children.
--
-- A query whose error the code drops reads as empty: which ones work is said by `Session.Limits.Gate`,
-- `Resource.Availability.Tables` and `Wallet.Service.Service`, and for the statements in the transaction of
-- RefillDue by `Wallet.Refill.Statements`; `refill` is the run in which all of them work.
--
-- State is passed explicitly: an operation on the database takes its tables and gives a result and
-- the tables after it. Which statements and transactions fail is a list of the state (`faults`), so a
-- theorem about all states covers every pattern of failures. Two operations that run at the same
-- time are two sequences of such steps.
--
-- Bounds: Go's int and int64 are integers without a bound here, as credits, limits and identifiers
-- stay far below 2^63; the range check of strconv.ParseInt is written out. An instant of the wallet and of a
-- session is in nanoseconds from Go's zero time, one of the gateway in Unix seconds from 0 on. The
-- recursions are on lists and on the number of extensions; only the digits of %d run on fuel, one more than the number, and
-- `decimal_from-enough` of Prelude/Text shows that more gives the same digits.
--
-- Parameters: the look-ups behind Authz and Policy (functions), AES-GCM, base64, JSON and SHA-256
-- (`Gateway.Token.Crypto`, with what they promise in `IsSound`), the disk and the cluster's list of
-- volumes (`Csi.Sweep.Env`), the charges that Go computes in float64 (`Session.Billing.Meter`,
-- `Volume.Billing.Meter`), the values of metrics in a tick and their comparison
-- (`Notify.Engine.Env`), the answers of the cluster to a claim (`Volume.Quota.Provisioner`), the
-- placement and the volumes that the gate of a session asks for (`Session.Limits.Gate`), and how
-- Kubernetes matches a label to an affinity (`Resource.ShareMode.Scheduler`, with its documentation
-- as laws).
--
-- Not modelled: the rest of the sessions' life cycle, the catalogue of offerings, the settings of
-- alerts, data sets; the Kubernetes client, the HTTP layer and queries for display, which are I/O;
-- the frontend.
pub mod Prelude
pub mod Authz
pub mod Policy
pub mod Wallet
pub mod Gateway
pub mod Csi
pub mod TopUp
pub mod Session
pub mod Resource
pub mod Volume
pub mod Notify
