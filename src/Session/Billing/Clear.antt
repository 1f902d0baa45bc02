-- ===== src/Session/Billing/Clear.antt =====
-- Where no statement fails, none fails after the last settlement of a running session either.
use giosk.Prelude.{
  ◌≡◌, refl, inl, inr, Bool, true, false, Bool-cases, Option, none, some, [], ℕ, ℤ, pos, ◌-◌, ◌-ℤ◌,
  sym, subst, leb_ℤ, if◌then◌else◌,
}
use giosk.Wallet.Db.{Db, Result, ok, err, written}
use giosk.Wallet.Store.Answers.{Answered}
use giosk.Wallet.Service.{Service, consume}
use giosk.Wallet.Service.Answers.{consume-Answered}
use giosk.Session.Billing.Works.{written-clear}
use giosk.Session.Billing.{Session, Meter, group_or_zero, settle_due, settle_from, settle}

settle_due-clear :
    (svc : Service) (now : ℕ) (total : ℤ) (sess : Session) (d : Db)
    → d.faults ≡ []
    → (settle_due svc now true total sess d).1.faults ≡ []
unfolding settle_due
settle_due-clear svc now total sess d clear =
    answered
      (consume svc sess.user_id (group_or_zero sess.group_id) (total -ℤ sess.billed_credits)
        sess.instance_id d)
      (consume-Answered svc sess.user_id (group_or_zero sess.group_id)
        (total -ℤ sess.billed_credits) sess.instance_id d clear)
  where
    answered :
        (r : Result Bool × Db)
        → Answered r
        → (elim r.0 as (λ _. Session × Db) [
          | err _ ↦ (sess, r.1)
          | ok paid ↦
              if paid
              then written sess (record sess { billed_credits = total }) r.1
              else (sess, r.1)
        ]).1.faults
          ≡ []
    answered (ok true, e) q =
        subst (λ (p : Session × Db). p.1.faults ≡ [])
          (sym (written-clear sess (record sess { billed_credits = total }) e q)) refl
    answered (ok false, e) q = q
    answered (err x, e) q = elim q [ ]

pub settle-clear :
    (meter : Meter) (charger : Option Service) (now : ℕ) (sess : Session) (d : Db)
    → d.faults ≡ []
    → (settle meter charger now true sess d).1.faults ≡ []
unfolding settle settle_from
settle-clear meter none now sess d clear = clear
settle-clear meter (some svc) now sess d clear =
    elim (Bool-cases (leb_ℤ sess.price_per_hour (pos 0))) [
      | inl free ↦ rw free clear
      | inr costs ↦ rw costs (begun sess.started_at)
    ]
  where
    begun :
        (o : Option ℕ)
        → (elim o as (λ _. Session × Db) [
          | none ↦ (sess, d)
          | some started ↦ settle_from meter svc now true started sess d
        ]).1.faults
          ≡ []
    begun none = clear
    begun (some t) =
        elim (Bool-cases
          (leb_ℤ (meter sess.price_per_hour (now - t) -ℤ sess.billed_credits) (pos 0))) [
            | inl paid ↦ rw paid clear
            | inr owed ↦
                rw owed
                  (settle_due-clear svc now (meter sess.price_per_hour (now - t)) sess d clear)
          ]
