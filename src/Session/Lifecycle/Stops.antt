-- ===== src/Session/Lifecycle/Stops.antt =====
-- What the end of a running time takes from the wallet is what it writes down as billed.
use giosk.Prelude.{
  ℕ, ◌≡◌, refl, ap, ◌⊎◌, inl, inr, Bool, true, false, some, ℤ, pos, ◌<ℤ◌, if◌then◌else◌, arith,
}
use giosk.Wallet.Db.{Db, ok, err}
use giosk.Wallet.Db.Faults.{at, attempt_elim, written_elim}
use giosk.Wallet.Service.{Service}
use giosk.Session.Billing.{Session, Meter, stopped, settle}
use giosk.Session.Billing.Charges.{Conserved, Taken, payer, due_of, settle-Settled}
use giosk.Session.Lifecycle.{set_stopped, mark_and_stop, stop_session, auto_stop}

module _ (svc : Service) (d : Db) (sess : Session) (due : ℤ) where
  -- The wallet is down by what the row is billed more, or what was due was taken and the bill could
  -- not be written.
  abbrev Accounted : Session × Db → Type 0
  Accounted (s, e) =
      Conserved sess.user_id (payer svc d sess) d sess.billed_credits s.billed_credits e
      ⊎ ((s.billed_credits ≡ sess.billed_credits)
          × ((pos 0 <ℤ due) × Taken sess.user_id (payer svc d sess) due d e))

  -- It is accounted for, and an end without an error leaves the session stopped.
  abbrev pub Ended : Bool × Session × Db → Type 0
  Ended p = Accounted (p.1, p.2) × (p.0 ≡ true → p.1.phase ≡ stopped)

  set_stopped-Ended : (s : Session) (e : Db) → Accounted (s, e) → Ended (set_stopped s e)
  set_stopped-Ended s e h =
      attempt_elim
        (λ r. Ended (elim r.0 as (λ _. Bool × Session × Db) [
          | ok _ ↦ (true, record s { phase = stopped }, r.1)
          | err _ ↦ (false, s, r.1)
        ]))
        (λ z. (tt, z)) e (λ fs. (h, λ k. ground (arith, k))) (λ fs. (h, λ k. refl))

  mark_and_stop-Ended :
      (now : ℕ) (s : Session) (e : Db) → Accounted (s, e) → Ended (mark_and_stop now s e)
  mark_and_stop-Ended now s e h =
      written_elim (λ p. Ended (set_stopped p.0 p.1)) s (record s { stopped_since = some now }) e
        (λ fs. set_stopped-Ended s (at e fs) h)
        (λ fs. set_stopped-Ended (record s { stopped_since = some now }) (at e fs) h)

  -- Both ends after the settlement, by the kind of the session and whether its pod could be deleted.
  by_kind :
      (now : ℕ) (s : Session) (e : Db)
      → Accounted (s, e)
      → (c r : Bool)
      → Ended (if c then set_stopped s e else if r then mark_and_stop now s e else (false, s, e))
        × Ended (if c then set_stopped s e else mark_and_stop now s e)
  by_kind now s e h true _ = (set_stopped-Ended s e h, set_stopped-Ended s e h)
  by_kind now s e h false true = (mark_and_stop-Ended now s e h, mark_and_stop-Ended now s e h)
  by_kind now s e h false false = ((h, λ k. ground (arith, k)), mark_and_stop-Ended now s e h)

module _ (svc : Service) (d : Db) (sess : Session) (meter : Meter) (now started : ℕ)
    (since : sess.started_at ≡ some started) where
  settled :
      Accounted svc d sess
        (due_of svc d sess meter now started)
        (settle meter (some svc) now true sess d)
  settled = elim (settle-Settled svc d sess meter now true started since) [
    | inl conserved ↦ inl conserved
    | inr (same, taken) ↦ inr (ap (λ (s : Session). s.billed_credits) same, taken)
  ]

  -- A session that was started and is stopped by its user, an administrator or a reaper, whatever
  -- statement fails and whatever the cluster answers: its wallet is down by exactly what the row is
  -- billed more, or what was due was taken and the bill could not be written; no other wallet changes;
  -- and where no error is reported, the session is stopped.
  pub stop_session-Ended :
      (removed : Bool)
      → Ended svc d sess
          (due_of svc d sess meter now started)
          (stop_session meter (some svc) removed now sess d)
        × Ended svc d sess
            (due_of svc d sess meter now started)
            (auto_stop meter (some svc) now sess d)
  unfolding stop_session auto_stop
  stop_session-Ended removed =
      let s = settle meter (some svc) now true sess d in
      by_kind svc d sess (due_of svc d sess meter now started) now s.0 s.1 settled sess.ssh removed
