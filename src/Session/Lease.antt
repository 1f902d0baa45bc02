-- ===== src/Session/Lease.antt =====
-- backend/internal/session/service.go: the leases of the dynamic mode, Extend and the lease reaper, over
-- the table of sessions with their numbers of extensions.
pub mod Capped
pub mod Expires
use giosk.Prelude.{
  ℕ, suc, zero, ◌+◌, ◌*◌, ◌==◌, leb, Bool, true, false, ◌&&◌, not, Option, none, some, List, [],
  ◌∷◌, String, str_eq, ℤ, pos, ◌+ℤ◌, ltb_ℤ, pos_part, if◌then◌else◌,
}
use giosk.Wallet.Db.{Db, ok, err, attempt}
use giosk.Wallet.Service.{Service}
use giosk.Wallet.Service.Passes.{over_rows, listed}
use giosk.Session.Billing.{Session, Meter}
use giosk.Session.Billing.Once.{is_running}
use giosk.Session.Lifecycle.{auto_stop}

-- The settings of WithDynamicLease; `dynamic` is dynamicLease.
pub record Lease : Type 0 where
  pub dynamic : Bool
  pub max_hours : ℤ
  pub extension_hours : ℤ
  pub max_extensions : ℤ

-- A row with its extensions_used, which begins at 0 and is only ever raised by one.
pub record Leased : Type 0 where
  pub session : Session
  pub extensions_used : ℕ

-- IncrementExtensions: whether a row was changed, and the rows.
increment_extensions : String → ℕ → ℤ → List Leased → Bool × List Leased
increment_extensions i u max [] = (false, [])
increment_extensions i u max (r ∷ rs) =
    let (hit, rs') = increment_extensions i u max rs in
    if str_eq r.session.instance_id i && r.session.user_id == u && ltb_ℤ (pos r.extensions_used) max
    then (true, record r { extensions_used = suc r.extensions_used } ∷ rs')
    else (hit, r ∷ rs')

pub data Answer : Type 0 where
  extended extend_unavailable db_error : Answer

pub extend : Lease → String → ℕ → List Leased → Db → Answer × List Leased × Db
unfolding increment_extensions
extend l i u rows d =
    let (r, e) = attempt (λ z. (tt, z)) d in
    let (hit, rows') = increment_extensions i u l.max_extensions rows in
    if l.dynamic
    then elim r [
      | err _ ↦ (db_error, rows, e)
      | ok _ ↦ if hit then (extended, rows', e) else (extend_unavailable, rows', e)
    ]
    else (extend_unavailable, rows, d)

-- int * int
pub times : ℕ → ℤ → ℤ
times zero z = pos 0
times (suc n) z = z +ℤ times n z

-- totalH
pub total_hours : Lease → ℕ → ℤ
unfolding times
total_hours l used = l.max_hours +ℤ times used l.extension_hours

-- time.Hour in nanoseconds
abbrev pub hour : ℕ
hour = 3600000000000

-- The lease of a container that was started has run out.
pub expired : Lease → ℕ → Leased → Bool
unfolding total_hours
expired l now r =
    let total = total_hours l r.extensions_used in
    elim r.session.started_at [
      | none ↦ false
      | some started ↦
          not r.session.ssh && (ltb_ℤ (pos 0) total && leb (started + pos_part total * hour) now)
    ]

reap_row : Lease → Meter → Option Service → ℕ → Leased → Db → Leased × Db
unfolding expired
reap_row l meter charger now r d =
    let (_, s, e) = auto_stop meter charger now r.session d in
    if is_running r.session.phase && expired l now r then (record r { session = s }, e) else (r, d)

-- reapLeaseOnce
reap_lease_once : Lease → Meter → Option Service → ℕ → List Leased → Db → List Leased × Db
unfolding listed over_rows reap_row
reap_lease_once l meter charger now rows d =
    listed (over_rows (reap_row l meter charger now)) rows d

-- A tick of RunLeaseReaper.
pub lease_tick : Lease → Meter → Option Service → ℕ → List Leased → Db → List Leased × Db
unfolding reap_lease_once
lease_tick l meter charger now rows d =
    if l.dynamic then reap_lease_once l meter charger now rows d else (rows, d)
