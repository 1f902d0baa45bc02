-- ===== src/Session/Billing/Works.antt =====
-- Where no statement fails, the biller charges a session that can pay and stops one that cannot.
use Prim.Native.String.{◌++◌}
use giosk.Prelude.{
  ℕ, ◌-◌, ◌≡◌, refl, sym, ap, subst, ◌⊎◌, inl, inr, Bool, true, false, Option, none, some, [], ℤ,
  pos, ◌+ℤ◌, ◌-ℤ◌, ◌≤ℤ◌, ◌<ℤ◌, leb_ℤ, ltb_ℤ, arith, if◌then◌else◌,
}
use giosk.Wallet.Db.{Db, Result, ok, err, written}
use giosk.Wallet.Db.Faults.{at, attempt-clear}
use giosk.Wallet.Store.Effects.{bal}
use giosk.Wallet.Store.Answers.{Answered}
use giosk.Wallet.Service.{Service, consume}
use giosk.Wallet.Service.Consume.{Consumed, consume-Consumed}
use giosk.Wallet.Service.Answers.{consume-Answered}
use giosk.Session.Billing.StorageCharges.{biller, storage_due, total_of}
use giosk.Session.Billing.{
  Session, stopped, group_or_zero, Meter, stop_for_billing, settle_due, settle_from, settle,
  storage_due_of, demand, charge_storage, settle_since, settle_storage,
}
use giosk.Session.Billing.Charges.{payer, due_of}

pub written-clear :
    (old new : Session) (d : Db) → d.faults ≡ [] → written old new d ≡ (new, at d [])
written-clear old new d clear =
    ap
      (λ (r : Result (Unit {0}) × Db).
        (elim r.0 as (λ _. Session) [ ok _ ↦ new | err _ ↦ old ], r.1))
      (attempt-clear (λ z. (tt, z)) d clear)

module _ (svc : Service) (d : Db) (sess : Session) where
  -- A session is charged `due` and the row is billed for it.
  abbrev pub Charged : ℤ → Session × Db → Type 0
  Charged due (s, e) =
      (due ≤ℤ bal d sess.user_id (payer svc d sess))
      × ((bal e sess.user_id (payer svc d sess)
            ≡ bal d sess.user_id (payer svc d sess) +ℤ (pos 0 -ℤ due))
          × (s.billed_credits -ℤ sess.billed_credits ≡ due))

  -- It is not charged and stops, with the time of a container counted from `now`.
  abbrev pub Halted : ℕ → ℤ → Session × Db → Type 0
  Halted now due (s, e) =
      (bal d sess.user_id (payer svc d sess) <ℤ due)
      × (((v h : ℕ) → bal e v h ≡ bal d v h)
          × ((s.billed_credits ≡ sess.billed_credits)
              × ((s.phase ≡ stopped) × ((sess.ssh ≡ true) ⊎ (s.stopped_since ≡ some now)))))

  stop_for_billing-Halted :
      (now : ℕ) (due : ℤ) (e : Db)
      → e.faults ≡ []
      → bal d sess.user_id (payer svc d sess) <ℤ due
      → ((v h : ℕ) → bal e v h ≡ bal d v h)
      → Halted now due (stop_for_billing now sess e)
  unfolding stop_for_billing
  stop_for_billing-Halted now due e clear short same = by_kind sess.ssh refl
    where
      marked : Session
      marked = record sess { stopped_since = some now }

      by_kind :
          (ssh : Bool)
          → sess.ssh ≡ ssh
          → Halted now due (
              if ssh
              then written sess (record sess { phase = stopped }) e
              else written
                  (written sess marked e).0
                  (record ((written sess marked e).0) { phase = stopped })
                  (written sess marked e).1)
      by_kind true machine =
          subst (Halted now due)
            (sym (written-clear sess (record sess { phase = stopped }) e clear))
            (short, (same, (refl, (refl, inl machine))))
      by_kind false container =
          subst
            (λ (p : Session × Db).
              Halted now due (written p.0 (record (p.0) { phase = stopped }) p.1))
            (sym (written-clear sess marked e clear))
            (subst (Halted now due)
              (sym (written-clear marked (record marked { phase = stopped }) (at e []) refl))
              (short, (same, (refl, (refl, inr refl)))))

  settle_due-Charged :
      (now : ℕ) (total : ℤ)
      → d.faults ≡ []
      → pos 0 <ℤ (total -ℤ sess.billed_credits)
      → Charged (total -ℤ sess.billed_credits) (settle_due svc now false total sess d)
        ⊎ Halted now (total -ℤ sess.billed_credits) (settle_due svc now false total sess d)
  unfolding settle_due
  settle_due-Charged now total clear positive =
      answered (consume svc sess.user_id (group_or_zero sess.group_id) due sess.instance_id d)
        (consume-Answered svc sess.user_id (group_or_zero sess.group_id) due sess.instance_id d
          clear)
        (consume-Consumed svc sess.user_id (group_or_zero sess.group_id) due sess.instance_id d
          positive)
    where
      due : ℤ
      due = total -ℤ sess.billed_credits

      billed : Session
      billed = record sess { billed_credits = total }

      answered :
          (r : Result Bool × Db)
          → Answered r
          → Consumed sess.user_id (payer svc d sess) due d r
          → let p = elim r.0 as (λ _. Session × Db) [
            | err _ ↦ (sess, r.1)
            | ok paid ↦ if paid then written sess billed r.1 else stop_for_billing now sess r.1
          ] in
            Charged due p ⊎ Halted now due p
      answered (ok true, e) clear' q =
          inl (subst (Charged due) (sym (written-clear sess billed e clear')) (q.0, (q.1, refl)))
      answered (ok false, e) clear' q = inr (stop_for_billing-Halted now due e clear' q.0 q.1)
      answered (err x, e) nothing q = elim nothing [ ]

  -- Where no statement fails, a tick of the biller on a session that was started, costs something and
  -- owes something takes what is due from the wallet and bills the row for it if the wallet covers it,
  -- and else takes nothing and stops the session, a container with its time counted from now.
  pub settle-Charged :
      (meter : Meter) (now started : ℕ)
      → d.faults ≡ []
      → pos 0 <ℤ sess.price_per_hour
      → sess.started_at ≡ some started
      → pos 0 <ℤ due_of svc d sess meter now started
      → Charged (due_of svc d sess meter now started) (settle meter (some svc) now false sess d)
        ⊎ Halted now
            (due_of svc d sess meter now started)
            (settle meter (some svc) now false sess d)
  unfolding settle settle_from
  settle-Charged meter now started clear priced since owed =
      let not_free : leb_ℤ sess.price_per_hour (pos 0) ≡ false = ground (arith, priced) in
      let some_due : leb_ℤ (due_of svc d sess meter now started) (pos 0) ≡ false =
        ground (arith, owed) in
      rw (not_free, since, some_due)
        (settle_due-Charged now (meter sess.price_per_hour (now - started)) clear owed)

  -- The time is counted up to `now`; what is due is taken and billed, or left for later.
  abbrev pub StorageCharged : ℕ → ℕ → ℤ → Session × Db → Type 0
  StorageCharged now total due (s, e) =
      (s.stopped_seconds ≡ total)
      × ((s.stopped_since ≡ some now)
          × (((due ≤ℤ bal d sess.user_id (payer svc d sess))
                × ((bal e sess.user_id (payer svc d sess)
                      ≡ bal d sess.user_id (payer svc d sess) +ℤ (pos 0 -ℤ due))
                    × (s.storage_billed_credits -ℤ sess.storage_billed_credits ≡ due)))
              ⊎ ((bal d sess.user_id (payer svc d sess) <ℤ due)
                  × (((v h : ℕ) → bal e v h ≡ bal d v h)
                      × (s.storage_billed_credits ≡ sess.storage_billed_credits)))))

  module _ (price : ℤ) (now since : ℕ) where
    abbrev pub storage_owed : ℤ
    storage_owed = storage_due svc d sess (biller svc d sess price now since) now since

    settle_since-StorageCharged :
        d.faults ≡ []
        → pos 0 <ℤ price
        → pos 0 <ℤ storage_owed
        → StorageCharged now
            (total_of svc d sess now since)
            storage_owed
            (settle_since (biller svc d sess price now since) now since sess d)
    unfolding settle_since charge_storage demand
    settle_since-StorageCharged clear priced positive =
        let has_price : ltb_ℤ (pos 0) price ≡ true = ground (arith, priced) in
        let some_due : ltb_ℤ (pos 0) storage_owed ≡ true = ground (arith, positive) in
        rw (has_price, some_due)
          (answered
            (consume svc sess.user_id (group_or_zero sess.group_id) storage_owed
              ("sh-" ++ sess.instance_id) d)
            (consume-Answered svc sess.user_id (group_or_zero sess.group_id) storage_owed
              ("sh-" ++ sess.instance_id) d clear)
            (consume-Consumed svc sess.user_id (group_or_zero sess.group_id) storage_owed
              ("sh-" ++ sess.instance_id) d positive))
      where
        total_due : ℤ
        total_due = storage_due_of (total_of svc d sess now since) price

        row : ℤ → Session
        row c = record sess {
          stopped_seconds = total_of svc d sess now since;
          storage_billed_credits = c;
          stopped_since = some now;
        }

        answered :
            (r : Result Bool × Db)
            → Answered r
            → Consumed sess.user_id (payer svc d sess) storage_owed d r
            → StorageCharged now (total_of svc d sess now since) storage_owed (
                written sess
                  (row (elim r.0 as (λ _. ℤ) [
                    | ok paid ↦ if paid then total_due else sess.storage_billed_credits
                    | err _ ↦ sess.storage_billed_credits
                  ]))
                  r.1)
        answered (ok true, e) clear' q =
            subst (StorageCharged now (total_of svc d sess now since) storage_owed)
              (sym (written-clear sess (row total_due) e clear'))
              (refl, (refl, inl (q.0, (q.1, refl))))
        answered (ok false, e) clear' q =
            subst (StorageCharged now (total_of svc d sess now since) storage_owed)
              (sym (written-clear sess (row sess.storage_billed_credits) e clear'))
              (refl, (refl, inr (q.0, (q.1, refl))))
        answered (err x, e) nothing q = elim nothing [ ]

    -- Where no statement fails, a tick of the storage biller on a stopped session that owes something at
    -- the price counts its time up to now, and takes what is due and bills it if the wallet covers it;
    -- else nothing is taken and what is due stays owed.
    pub settle_storage-StorageCharged :
        d.faults ≡ []
        → pos 0 <ℤ price
        → sess.stopped_since ≡ some since
        → pos 0 <ℤ storage_owed
        → StorageCharged now
            (total_of svc d sess now since)
            storage_owed
            (settle_storage (biller svc d sess price now since) now sess d)
    unfolding settle_storage
    settle_storage-StorageCharged clear priced h positive =
        subst
          (λ (o : Option ℕ).
            StorageCharged now (total_of svc d sess now since) storage_owed
              (elim o as (λ _. Session × Db) [
                | none ↦ (sess, d)
                | some t ↦ settle_since (biller svc d sess price now since) now t sess d
              ]))
          (sym h) (settle_since-StorageCharged clear priced positive)
