-- ===== src/Session/Billing/Charges.antt =====
-- What the biller takes from a wallet is what it writes down as billed.
use giosk.Prelude.{
  ℕ, ◌-◌, ◌≡◌, refl, sym, ap, subst, ◌⊎◌, inl, inr, Bool, true, false, Option, none, some, arith, ℤ,
  pos, ◌+ℤ◌, ◌-ℤ◌, ◌<ℤ◌, leb_ℤ, int_laws, Bool-cases, if◌then◌else◌,
}
use giosk.Wallet.Db.{Db, Result, ok, err, written}
use giosk.Wallet.Db.Faults.{at, written_elim}
use giosk.Wallet.Store.Effects.{bal, Elsewhere}
use giosk.Wallet.Service.{Service, consume, resolve_group}
use giosk.Wallet.Service.Consume.{Consumed, consume-Consumed}
use giosk.Session.Billing.{
  Session, stopped, group_or_zero, Meter, stop_for_billing, settle_due, settle_from, settle,
}

-- What the wallet of `u` in `h` is down by is what `new` is above `old`, and no other wallet changed.
abbrev pub Conserved : ℕ → ℕ → Db → ℤ → ℤ → Db → Type 0
Conserved u h d old new e = (bal e u h +ℤ new ≡ bal d u h +ℤ old) × Elsewhere u h d e

-- The amount was taken from the wallet of `u` in `h`, and no other wallet changed.
abbrev pub Taken : ℕ → ℕ → ℤ → Db → Db → Type 0
Taken u h c d e = (bal e u h ≡ bal d u h +ℤ (pos 0 -ℤ c)) × Elsewhere u h d e

pub kept :
    (u h : ℕ) (d e : Db) (old : ℤ) → ((v k : ℕ) → bal e v k ≡ bal d v k) → Conserved u h d old old e
kept u h d e old same = (ap (λ (z : ℤ). z +ℤ old) (same u h), λ v k. inr (same v k))

pub balanced : (x y t b : ℤ) → x ≡ y +ℤ (pos 0 -ℤ (t -ℤ b)) → x +ℤ t ≡ y +ℤ b
balanced x y t b h = rw h (omega int_laws)

module _ (svc : Service) (d : Db) (sess : Session) where
  abbrev pub payer : ℕ
  payer = resolve_group svc d sess.user_id (group_or_zero sess.group_id)

  -- The billed amount of the row that is left accounts for the charge, or else a charge of `due`
  -- was taken and the row could not be written.
  abbrev pub Settled : ℤ → (Session → ℤ) → Session × Db → Type 0
  Settled due billed (s, e) =
      Conserved sess.user_id payer d (billed sess) (billed s) e
      ⊎ ((s ≡ sess) × ((pos 0 <ℤ due) × Taken sess.user_id payer due d e))

  abbrev pub running_billed : Session → ℤ
  running_billed s = s.billed_credits

  stop_for_billing-keeps :
      (now : ℕ) (e : Db)
      → ((v k : ℕ) → bal e v k ≡ bal d v k)
      → (due : ℤ) → Settled due running_billed (stop_for_billing now sess e)
  unfolding stop_for_billing
  stop_for_billing-keeps now e same due = by_kind sess.ssh
    where
      unpaid : Conserved sess.user_id payer d sess.billed_credits sess.billed_credits e
      unpaid = kept sess.user_id payer d e sess.billed_credits same

      marked : Session
      marked = record sess { stopped_since = some now }

      by_kind :
          (ssh : Bool)
          → Settled due running_billed (
              if ssh
              then written sess (record sess { phase = stopped }) e
              else written
                  (written sess marked e).0
                  (record ((written sess marked e).0) { phase = stopped })
                  (written sess marked e).1)
      by_kind true =
          written_elim (Settled due running_billed) sess (record sess { phase = stopped }) e
            (λ fs. inl unpaid) (λ fs. inl unpaid)
      by_kind false =
          written_elim
            (λ p. Settled due running_billed (written p.0 (record (p.0) { phase = stopped }) p.1))
            sess marked e
            (λ fs.
              written_elim (Settled due running_billed) sess (record sess { phase = stopped })
                (at e fs) (λ gs. inl unpaid) (λ gs. inl unpaid))
            (λ fs.
              written_elim (Settled due running_billed) marked (record marked { phase = stopped })
                (at e fs) (λ gs. inl unpaid) (λ gs. inl unpaid))

  settle_due-Settled :
      (now : ℕ) (final : Bool) (total : ℤ)
      → pos 0 <ℤ (total -ℤ sess.billed_credits)
      → Settled
          (total -ℤ sess.billed_credits)
          running_billed
          (settle_due svc now final total sess d)
  unfolding settle_due
  settle_due-Settled now final total positive =
      answered (consume svc sess.user_id (group_or_zero sess.group_id) due sess.instance_id d) (
        consume-Consumed svc sess.user_id (group_or_zero sess.group_id) due sess.instance_id d
          positive)
    where
      due : ℤ
      due = total -ℤ sess.billed_credits

      answered :
          (r : Result Bool × Db)
          → Consumed sess.user_id payer due d r
          → Settled due running_billed (elim r.0 as (λ _. Session × Db) [
            | err _ ↦ (sess, r.1)
            | ok paid ↦
                if paid
                then written sess (record sess { billed_credits = total }) r.1
                else if final
                then (sess, r.1)
                else stop_for_billing now sess r.1
          ])
      answered (ok true, e) q =
          written_elim (Settled due running_billed) sess (record sess { billed_credits = total }) e
            (λ fs. inr (refl, (positive, (q.1, q.2))))
            (λ fs. inl (
              balanced (bal e sess.user_id payer) (bal d sess.user_id payer) total
                  sess.billed_credits q.1,
              q.2,
            ))
      answered (ok false, e) q = elim (Bool-cases final) [
        | inl last ↦ rw last (inl (kept sess.user_id payer d e sess.billed_credits q.1))
        | inr more ↦ rw more (stop_for_billing-keeps now e q.1 due)
      ]
      answered (err x, e) q = inl (kept sess.user_id payer d e sess.billed_credits q.1)

  -- What `settle` demands of a session that has been running.
  abbrev pub due_of : Meter → ℕ → ℕ → ℤ
  due_of meter now started = meter sess.price_per_hour (now - started) -ℤ sess.billed_credits

  settle_from-Settled :
      (meter : Meter) (now : ℕ) (final : Bool) (started : ℕ)
      → Settled
          (due_of meter now started)
          running_billed
          (settle_from meter svc now final started sess d)
  unfolding settle_from
  settle_from-Settled meter now final started =
      elim (Bool-cases (leb_ℤ (due_of meter now started) (pos 0))) [
        | inl none_due ↦
            rw none_due (inl (kept sess.user_id payer d d sess.billed_credits (λ v k. refl)))
        | inr some_due ↦ rw some_due (
            settle_due-Settled now final (meter sess.price_per_hour (now - started))
              (ground (arith, some_due)))
      ]

  -- A tick of the biller on a session that was started: the wallet of the session's group is down by
  -- exactly what the row is billed more, whatever statement of the charge fails and whether the session
  -- is stopped or not, or else what was due was taken and the row could not be written; no other
  -- wallet changes.
  pub settle-Settled :
      (meter : Meter) (now : ℕ) (final : Bool) (started : ℕ)
      → sess.started_at ≡ some started
      → Settled (due_of meter now started) running_billed (settle meter (some svc) now final sess d)
  unfolding settle
  settle-Settled meter now final started h = elim (Bool-cases (leb_ℤ sess.price_per_hour (pos 0))) [
    | inl free ↦ rw free (inl (kept sess.user_id payer d d sess.billed_credits (λ v k. refl)))
    | inr paid ↦ rw paid (by_start sess.started_at h)
  ]
    where
      by_start :
          (o : Option ℕ)
          → o ≡ some started
          → Settled (due_of meter now started) running_billed (elim o as (λ _. Session × Db) [
            | none ↦ (sess, d)
            | some t ↦ settle_from meter svc now final t sess d
          ])
      by_start o e =
          subst
            (λ (z : Option ℕ).
              Settled (due_of meter now started) running_billed (elim z as (λ _. Session × Db) [
                | none ↦ (sess, d)
                | some t ↦ settle_from meter svc now final t sess d
              ]))
            (sym e) (settle_from-Settled meter now final started)
