-- ===== src/Session/Billing/Once.antt =====
-- backend/internal/session/service.go: one tick of the biller, over the table of sessions. One instant
-- stands for the readings of the clock in a tick.
pub mod Fair
pub mod Paid
use giosk.Prelude.{
  ℕ, Bool, true, false, ◌&&◌, not, Option, none, some, List, [], ◌∷◌, if◌then◌else◌,
}
use giosk.Wallet.Db.{Db, ok, err, attempt, written}
use giosk.Wallet.Service.Passes.{over_rows, listed}
use giosk.Session.Billing.{Phase, running, stopped, Session, Biller, Meter, settle, settle_storage}

abbrev pub is_running : Phase → Bool
is_running running = true
is_running stopped = false

-- A row that ListRunning gives is settled; another one is left alone.
pub bill_running_row : Meter → Biller → ℕ → Session → Db → Session × Db
bill_running_row meter b now s d =
    if is_running s.phase then settle meter b.charger now false s d else (s, d)

-- A row that ListStopped gives: its time is opened, or what has passed is settled.
bill_stopped : Biller → ℕ → Session → Db → Session × Db
bill_stopped b now s d = elim s.stopped_since [
  | none ↦ written s (record s { stopped_since = some now }) d
  | some _ ↦ settle_storage b now s d
]

pub bill_stopped_row : Biller → ℕ → Session → Db → Session × Db
unfolding bill_stopped
bill_stopped_row b now s d =
    if not (is_running s.phase) && not s.ssh then bill_stopped b now s d else (s, d)

-- billStoppedStorageOnce
bill_stopped_storage : Biller → ℕ → List Session → Db → List Session × Db
unfolding listed over_rows bill_stopped_row
bill_stopped_storage b now rows d = listed (over_rows (bill_stopped_row b now)) rows d

-- billOnce
pub bill_once : Meter → Biller → ℕ → List Session → Db → List Session × Db
unfolding listed over_rows bill_running_row bill_stopped_storage
bill_once meter b now rows d =
    listed
      (λ rs e.
        let (rs', e') = over_rows (bill_running_row meter b now) rs e in
        bill_stopped_storage b now rs' e')
      rows d
