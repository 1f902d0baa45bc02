-- ===== src/Session/Billing/StorageCharges.antt =====
-- The charges for the storage of a stopped session.
use Prim.Native.String.{◌++◌}
use giosk.Prelude.{
  ℕ, ◌+◌, ◌≡◌, refl, sym, subst, ◌⊎◌, inl, inr, Bool, true, false, Option, none, some, arith, ℤ,
  pos, ◌-ℤ◌, ◌<ℤ◌, ltb_ℤ, Bool-cases, if◌then◌else◌,
}
use giosk.Wallet.Db.Faults.{written_elim}
use giosk.Wallet.Db.{Db, Result, ok, err, written}
use giosk.Wallet.Store.Effects.{bal}
use giosk.Wallet.Service.{Service, consume}
use giosk.Wallet.Service.Consume.{Consumed, consume-Consumed}
use giosk.Session.Billing.{
  Session, storage_due_of, elapsed_seconds, group_or_zero, Biller, demand, charge_storage,
  settle_since, settle_storage,
}
use giosk.Session.Billing.Charges.{Conserved, Taken, kept, balanced, payer, Settled}

module _ (svc : Service) (d : Db) (sess : Session) where
  abbrev pub storage_billed : Session → ℤ
  storage_billed s = s.storage_billed_credits

  demand-Charged :
      (total_due : ℤ)
      → let r = demand svc total_due sess d in
        (Conserved sess.user_id (payer svc d sess) d sess.storage_billed_credits r.0 r.1)
        × ((r.0 ≡ sess.storage_billed_credits)
            ⊎ ((pos 0 <ℤ (total_due -ℤ sess.storage_billed_credits))
                × Taken sess.user_id
                    (payer svc d sess)
                    (total_due -ℤ sess.storage_billed_credits)
                    d
                    r.1))
  unfolding demand
  demand-Charged total_due = elim (Bool-cases (ltb_ℤ (pos 0) due)) [
    | inr none_due ↦
        rw none_due (kept sess.user_id (payer svc d sess) d d old (λ v k. refl), inl refl)
    | inl some_due ↦ rw some_due (
        answered (ground (arith, some_due))
          (consume svc sess.user_id (group_or_zero sess.group_id) due ("sh-" ++ sess.instance_id) d)
          (consume-Consumed svc sess.user_id (group_or_zero sess.group_id) due
            ("sh-" ++ sess.instance_id) d (ground (arith, some_due))))
  ]
    where
      old : ℤ
      old = sess.storage_billed_credits

      due : ℤ
      due = total_due -ℤ sess.storage_billed_credits

      answered :
          pos 0 <ℤ due
          → (r : Result Bool × Db) → Consumed sess.user_id (payer svc d sess) due d r
          → let b = elim r.0 as (λ _. ℤ) [
            | ok paid ↦ if paid then total_due else old
            | err _ ↦ old
          ] in
            Conserved sess.user_id (payer svc d sess) d old b r.1
            × ((b ≡ old) ⊎ ((pos 0 <ℤ due) × Taken sess.user_id (payer svc d sess) due d r.1))
      answered positive (ok true, e) q = (
        (
          balanced (bal e sess.user_id (payer svc d sess)) (bal d sess.user_id (payer svc d sess))
              total_due old q.1,
          q.2,
        ),
        inr (positive, (q.1, q.2)),
      )
      answered positive (ok false, e) q =
          (kept sess.user_id (payer svc d sess) d e old q.1, inl refl)
      answered positive (err x, e) q = (kept sess.user_id (payer svc d sess) d e old q.1, inl refl)

  -- The seconds stopped up to `now`.
  abbrev pub total_of : ℕ → ℕ → ℕ
  total_of now since = sess.stopped_seconds + elapsed_seconds since now

  abbrev pub storage_due : Biller → ℕ → ℕ → ℤ
  storage_due b now since =
      storage_due_of (total_of now since) b.storage_price -ℤ sess.storage_billed_credits

  -- The row accounts for the charge, and the time is counted up to `now` or, where the row could
  -- not be written, left to the next tick.
  abbrev pub StorageSettled : Biller → ℕ → ℕ → Session × Db → Type 0
  StorageSettled b now since p =
      Settled svc d sess (storage_due b now since) storage_billed p
      × ((p.0 ≡ sess)
          ⊎ ((p.0.stopped_seconds ≡ total_of now since) × (p.0.stopped_since ≡ some now)))

  module _ (price : ℤ) (now since : ℕ) where
    abbrev pub biller : Biller
    biller = record { storage_price = price; charger = some svc }

    abbrev row : ℤ → Session
    row billed = record sess {
      stopped_seconds = total_of now since;
      storage_billed_credits = billed;
      stopped_since = some now;
    }

    write-StorageSettled :
        (r : ℤ × Db)
        → Conserved sess.user_id (payer svc d sess) d sess.storage_billed_credits r.0 r.1
        → (r.0 ≡ sess.storage_billed_credits)
          ⊎ ((pos 0 <ℤ storage_due biller now since)
              × Taken sess.user_id (payer svc d sess) (storage_due biller now since) d r.1)
        → StorageSettled biller now since (written sess (row r.0) r.1)
    write-StorageSettled (billed, e) conserved how =
        written_elim (StorageSettled biller now since) sess (row billed) e
          (λ fs. (
            elim how [
              | inl same ↦ inl (
                  subst
                    (λ z.
                      Conserved sess.user_id (payer svc d sess) d sess.storage_billed_credits z e)
                    same conserved)
              | inr charged ↦ inr (refl, charged)
            ],
            inl refl,
          ))
          (λ fs. (inl conserved, inr (refl, refl)))

    settle_since-StorageSettled :
        StorageSettled biller now since (settle_since biller now since sess d)
    unfolding settle_since charge_storage
    settle_since-StorageSettled = elim (Bool-cases (ltb_ℤ (pos 0) price)) [
      | inl priced ↦ rw priced (
          let charged = demand-Charged (storage_due_of (total_of now since) price) in
          write-StorageSettled (demand svc (storage_due_of (total_of now since) price) sess d)
            charged.0 charged.1)
      | inr free ↦ rw free (
          write-StorageSettled (sess.storage_billed_credits, d)
            (kept sess.user_id (payer svc d sess) d d sess.storage_billed_credits (λ v k. refl))
            (inl refl))
    ]

    -- A tick of the storage biller on a session that is stopped: the wallet is down by exactly what
    -- the row is billed more and the time is counted up to now, whatever statement of the charge
    -- fails, or else the row could not be written and is as it was, with what was due taken or not.
    pub settle_storage-StorageSettled :
        sess.stopped_since ≡ some since
        → StorageSettled biller now since (settle_storage biller now sess d)
    unfolding settle_storage
    settle_storage-StorageSettled h =
        subst
          (λ (z : Option ℕ). StorageSettled biller now since (elim z as (λ _. Session × Db) [
            | none ↦ (sess, d)
            | some t ↦ settle_since biller now t sess d
          ]))
          (sym h) settle_since-StorageSettled
