-- ===== src/Session/Lifecycle/Clear.antt =====
-- Where no statement fails, autoStop leaves the session stopped.
use giosk.Prelude.{◌≡◌, refl, sym, subst, Bool, true, false, Option, some, [], ℕ, if◌then◌else◌}
use giosk.Wallet.Db.{Db, Result, ok, err}
use giosk.Wallet.Db.Faults.{at, attempt-clear}
use giosk.Wallet.Service.{Service}
use giosk.Session.Billing.Works.{written-clear}
use giosk.Session.Billing.Clear.{settle-clear}
use giosk.Session.Billing.{Session, Meter, stopped, settle}
use giosk.Session.Lifecycle.{set_stopped, mark_and_stop, auto_stop}

-- The session is stopped, and no statement fails after it.
abbrev pub Over : Bool × Session × Db → Type 0
Over p = (p.1.phase ≡ stopped) × (p.2.faults ≡ [])

set_stopped-Over : (s : Session) (d : Db) → d.faults ≡ [] → Over (set_stopped s d)
set_stopped-Over s d clear =
    subst
      (λ (r : Result (Unit {0}) × Db). Over (elim r.0 as (λ _. Bool × Session × Db) [
        | ok _ ↦ (true, record s { phase = stopped }, r.1)
        | err _ ↦ (false, s, r.1)
      ]))
      (sym (attempt-clear (λ z. (tt, z)) d clear)) (refl, refl)

mark_and_stop-Over : (now : ℕ) (s : Session) (d : Db) → d.faults ≡ [] → Over (mark_and_stop now s d)
mark_and_stop-Over now s d clear =
    let marked = record s { stopped_since = some now } in
    subst (λ (p : Session × Db). Over (set_stopped p.0 p.1)) (sym (written-clear s marked d clear))
      (set_stopped-Over marked (at d []) refl)

pub auto_stop-Over :
    (meter : Meter) (charger : Option Service) (now : ℕ) (sess : Session) (d : Db)
    → d.faults ≡ []
    → Over (auto_stop meter charger now sess d)
unfolding auto_stop
auto_stop-Over meter charger now sess d clear = by_kind sess.ssh
  where
    by_kind :
        (c : Bool)
        → let (s, e) = settle meter charger now true sess d in
          Over (if c then set_stopped s e else mark_and_stop now s e)
    by_kind true =
        let p = settle meter charger now true sess d in
        set_stopped-Over p.0 p.1 (settle-clear meter charger now sess d clear)
    by_kind false =
        let p = settle meter charger now true sess d in
        mark_and_stop-Over now p.0 p.1 (settle-clear meter charger now sess d clear)
