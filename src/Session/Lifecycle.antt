-- ===== src/Session/Lifecycle.antt =====
-- backend/internal/session/service.go: the end of a running time. stopSession (Stop, AdminStop)
-- and autoStop (the reapers), on the row of the session; what the cluster answers to the removal of the pod is
-- a parameter.
pub mod Stops
pub mod Clear
use giosk.Prelude.{ℕ, Bool, true, false, Option, none, some, if◌then◌else◌}
use giosk.Wallet.Db.{Db, ok, err, attempt, written}
use giosk.Wallet.Service.{Service}
use giosk.Session.Billing.{Phase, running, stopped, Session, Meter, Biller, settle, settle_storage}

-- SetPhase(stopped): whether it was written, and the row.
abbrev pub set_stopped : Session → Db → Bool × Session × Db
set_stopped s d =
    let (r, e) = attempt (λ z. (tt, z)) d in
    elim r [ ok _ ↦ (true, record s { phase = stopped }, e) | err _ ↦ (false, s, e) ]

-- MarkStopped, whose error is dropped, and SetPhase.
abbrev pub mark_and_stop : ℕ → Session → Db → Bool × Session × Db
mark_and_stop now s d =
    let (marked, e) = written s (record s { stopped_since = some now }) d in set_stopped marked e

-- stopSession; `removed` says whether the pod of a container could be deleted. The first component says
-- whether it ends without an error.
pub stop_session : Meter → Option Service → Bool → ℕ → Session → Db → Bool × Session × Db
stop_session meter charger removed now sess d =
    let (s, e) = settle meter charger now true sess d in
    if sess.ssh then set_stopped s e else if removed then mark_and_stop now s e else (false, s, e)

-- autoStop: what the cluster answers does not matter.
pub auto_stop : Meter → Option Service → ℕ → Session → Db → Bool × Session × Db
auto_stop meter charger now sess d =
    let (s, e) = settle meter charger now true sess d in
    if sess.ssh then set_stopped s e else mark_and_stop now s e
