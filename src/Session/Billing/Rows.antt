-- ===== src/Session/Billing/Rows.antt =====
-- What the biller leaves as it is in a session's row.
use giosk.Prelude.{
  ℕ, ◌+◌, ◌-◌, inl, inr, Bool, true, false, Option, none, some, ℤ, pos, ◌-ℤ◌, leb_ℤ, Bool-cases,
  if◌then◌else◌,
}
use giosk.Wallet.Db.Faults.{written_elim}
use giosk.Wallet.Db.{Db, Result, ok, err, written}
use giosk.Wallet.Service.{Service, consume}
use giosk.Session.Billing.{
  stopped, Session, Biller, Meter, group_or_zero, charge_storage, settle_since, settle, settle_from,
  settle_due, stop_for_billing, settle_storage, elapsed_seconds,
}
use giosk.Session.Billing.Charges.{}

-- What holds of a row, whether it is written or not.
pub written_row :
    (P : Session → Type 0) (old new : Session) (d : Db) → P old → P new → P ((written old new d).0)
written_row P old new d p q = written_elim (λ r. P r.0) old new d (λ fs. p) (λ fs. q)

-- What holds of a row after `settle`, as long as its three columns do not matter to it.
module _ (P : Session → Type 0) (sess : Session) (d : Db) (before : P sess)
    (paid : (x : Session) (c : ℤ) → P x → P (record x { billed_credits = c }))
    (halted : (x : Session) → P x → P (record x { phase = stopped }))
    (marked : (x : Session) (o : Option ℕ) → P x → P (record x { stopped_since = o })) where
  stop_row : (now : ℕ) (e : Db) → P ((stop_for_billing now sess e).0)
  unfolding stop_for_billing
  stop_row now e = elim (Bool-cases sess.ssh) [
    | inl machine ↦
        rw machine
          (written_row P sess (record sess { phase = stopped }) e before (halted sess before))
    | inr container ↦ rw container (
        let first = written sess (record sess { stopped_since = some now }) e in
        let p =
          written_row P sess (record sess { stopped_since = some now }) e before
            (marked sess (some now) before) in
        written_row P first.0 (record (first.0) { phase = stopped }) first.1 p (halted first.0 p))
  ]

  due_row :
      (svc : Service) (now : ℕ) (final : Bool) (total : ℤ)
      → P ((settle_due svc now final total sess d).0)
  unfolding settle_due
  due_row svc now final total = answered (
      consume svc sess.user_id (group_or_zero sess.group_id) (total -ℤ sess.billed_credits)
        sess.instance_id d)
    where
      answered :
          (r : Result Bool × Db)
          → P (
              (elim r.0 as (λ _. Session × Db) [
                | err _ ↦ (sess, r.1)
                | ok paid ↦
                    if paid
                    then written sess (record sess { billed_credits = total }) r.1
                    else if final
                    then (sess, r.1)
                    else stop_for_billing now sess r.1
              ]).0)
      answered (err x, e) = before
      answered (ok true, e) =
          written_row P sess (record sess { billed_credits = total }) e before
            (paid sess total before)
      answered (ok false, e) = elim (Bool-cases final) [
        | inl last ↦ rw last before
        | inr more ↦ rw more (stop_row now e)
      ]

  from_row :
      (meter : Meter) (svc : Service) (now : ℕ) (final : Bool) (started : ℕ)
      → P ((settle_from meter svc now final started sess d).0)
  unfolding settle_from
  from_row meter svc now final started =
      elim (Bool-cases
        (leb_ℤ (meter sess.price_per_hour (now - started) -ℤ sess.billed_credits) (pos 0))) [
          | inl none_due ↦ rw none_due before
          | inr some_due ↦
              rw some_due (due_row svc now final (meter sess.price_per_hour (now - started)))
        ]

  pub settle_row :
      (meter : Meter) (charger : Option Service) (now : ℕ) (final : Bool)
      → P ((settle meter charger now final sess d).0)
  unfolding settle
  settle_row meter none now final = before
  settle_row meter (some svc) now final = elim (Bool-cases (leb_ℤ sess.price_per_hour (pos 0))) [
    | inl free ↦ rw free before
    | inr priced ↦ rw priced (by_start sess.started_at)
  ]
    where
      by_start :
          (o : Option ℕ)
          → P (
              (elim o as (λ _. Session × Db) [
                | none ↦ (sess, d)
                | some t ↦ settle_from meter svc now final t sess d
              ]).0)
      by_start none = before
      by_start (some t) = from_row meter svc now final t

-- What holds of a row after `settle_storage`.
pub storage_row :
    (P : Session → Type 0) (b : Biller) (now : ℕ) (sess : Session) (d : Db)
    → P sess
    → ((total : ℕ) (c : ℤ)
        → P (record sess {
          stopped_seconds = total;
          storage_billed_credits = c;
          stopped_since = some now;
        }))
    → P ((settle_storage b now sess d).0)
unfolding settle_storage settle_since
storage_row P b now sess d before after = by_since sess.stopped_since
  where
    by_since :
        (o : Option ℕ)
        → P (
            (elim o as (λ _. Session × Db) [
              | none ↦ (sess, d)
              | some t ↦ settle_since b now t sess d
            ]).0)
    by_since none = before
    by_since (some t) =
        let total = sess.stopped_seconds + elapsed_seconds t now in
        let charged = charge_storage b total sess d in
        written_row P sess
          (record sess {
            stopped_seconds = total;
            storage_billed_credits = charged.0;
            stopped_since = some now;
          })
          charged.1 before (after total charged.0)
