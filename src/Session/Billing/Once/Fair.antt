-- ===== src/Session/Billing/Once/Fair.antt =====
-- No turn of the biller bills a session for more than its wallet pays.
use giosk.Prelude.{
  ℕ, ◌+◌, ◌-◌, ◌≡◌, ◌≢◌, refl, sym, ap, subst, inl, inr, false, ◌&&◌, not, Option, none, some, ℤ,
  pos, ◌+ℤ◌, ◌-ℤ◌, ◌≤ℤ◌, ◌<ℤ◌, int_laws, pos_part, neg_part, leb_ℤ, arith, Bool-cases, ◌==◌,
  if◌then◌else◌,
}
use giosk.Wallet.Db.{Db, written}
use giosk.Wallet.Db.Faults.{at, written_elim}
use giosk.Wallet.Store.Effects.{bal, Elsewhere}
use giosk.Wallet.Service.{Service, resolve_group}
use giosk.Wallet.Service.Consume.{resolve_group_named}
use giosk.Session.Billing.StorageCharges.{storage_due, settle_storage-StorageSettled}
use giosk.Session.Billing.{
  Session, Biller, Meter, group_or_zero, charge_storage, settle_since, settle, settle_storage,
  elapsed_seconds,
}
use giosk.Session.Billing.Charges.{Settled, settle-Settled}
use giosk.Session.Billing.Once.{is_running, bill_running_row, bill_stopped, bill_stopped_row}
use giosk.Session.Billing.Rows.{settle_row, storage_row}

-- Whose a session is.
abbrev pub Kept : Session → Session → Type 0
Kept s s' = (s'.user_id ≡ s.user_id) × (s'.group_id ≡ s.group_id)

-- What the session has been billed, on the wallet of `u` in `h`.
abbrev pub billed : ℕ → ℕ → Session → ℤ
billed u h s =
    if s.user_id == u && group_or_zero s.group_id == h
    then s.billed_credits +ℤ s.storage_billed_credits
    else pos 0

-- No wallet with the sessions that it pays for is worth more than before.
abbrev pub Fair : Session → Db → Session × Db → Type 0
Fair s d (s', e) = Kept s s' × ((u h : ℕ) → bal e u h +ℤ billed u h s' ≤ℤ bal d u h +ℤ billed u h s)

abbrev sum : Session → ℤ
sum s = s.billed_credits +ℤ s.storage_billed_credits

even : (x y a a' t t' : ℤ) → x +ℤ a' ≡ y +ℤ a → t' +ℤ a ≡ t +ℤ a' → x +ℤ t' ≤ℤ y +ℤ t
even x y a a' t t' p q =
    omega (int_laws, ap pos_part p, ap neg_part p, ap pos_part q, ap neg_part q)

less : (x y c t t' : ℤ) → x ≡ y +ℤ (pos 0 -ℤ c) → pos 0 <ℤ c → t' ≡ t → x +ℤ t' ≤ℤ y +ℤ t
less x y c t t' p q r = rw (p, r) (omega (int_laws, q))

unmoved : (x y : ℤ) → x ≡ y → x +ℤ pos 0 ≤ℤ y +ℤ pos 0
unmoved x y p = rw p (omega int_laws)

billed-Kept :
    (u h : ℕ) (s s' : Session)
    → Kept s s'
    → billed u h s' ≡ (if s.user_id == u && group_or_zero s.group_id == h then sum s' else pos 0)
billed-Kept u h s s' (same_user, same_group) = rw (same_user, same_group) refl

-- A charge is fair, where the row changes by `amount` only.
Settled-Fair :
    (svc : Service) (d : Db) (s : Session) (due : ℤ) (amount : Session → ℤ) (p : Session × Db)
    → group_or_zero s.group_id ≢ 0
    → Settled svc d s due amount p
    → Kept s p.0
    → sum p.0 +ℤ amount s ≡ sum s +ℤ amount p.0
    → Fair s d p
Settled-Fair svc d s due amount (s', e) named settled kept moved = (kept, fair)
  where
    home : ℕ
    home = group_or_zero s.group_id

    payer : resolve_group svc d s.user_id (group_or_zero s.group_id) ≡ group_or_zero s.group_id
    payer = resolve_group_named svc d s.user_id (group_or_zero s.group_id) named

    mine :
        bal e s.user_id (group_or_zero s.group_id) +ℤ sum s'
        ≤ℤ bal d s.user_id (group_or_zero s.group_id) +ℤ sum s
    mine =
        subst (λ (h : ℕ). bal e s.user_id h +ℤ sum s' ≤ℤ bal d s.user_id h +ℤ sum s) payer
          (elim settled [
            | inl (conserved, _) ↦
                even (bal e s.user_id (resolve_group svc d s.user_id (group_or_zero s.group_id)))
                  (bal d s.user_id (resolve_group svc d s.user_id (group_or_zero s.group_id)))
                  (amount s) (amount s') (sum s) (sum s') conserved moved
            | inr (same, (positive, (taken, _))) ↦
                less (bal e s.user_id (resolve_group svc d s.user_id (group_or_zero s.group_id)))
                  (bal d s.user_id (resolve_group svc d s.user_id (group_or_zero s.group_id))) due
                  (sum s) (sum s') taken positive (ap sum same)
          ])

    elsewhere : Elsewhere s.user_id (resolve_group svc d s.user_id (group_or_zero s.group_id)) d e
    elsewhere = elim settled [ inl (_, z) ↦ z | inr (_, (_, (_, z))) ↦ z ]

    fair : (u h : ℕ) → bal e u h +ℤ billed u h s' ≤ℤ bal d u h +ℤ billed u h s
    fair u h = elim (Bool-cases (s.user_id == u && group_or_zero s.group_id == h)) [
      | inl match ↦
          let same_user : s.user_id ≡ u = ground (arith, match) in
          let same_group : group_or_zero s.group_id ≡ h = ground (arith, match) in
          rw (billed-Kept u h s s' kept, match)
            (subst (λ (k : ℕ). bal e u k +ℤ sum s' ≤ℤ bal d u k +ℤ sum s) same_group
              (subst (λ (v : ℕ). bal e v home +ℤ sum s' ≤ℤ bal d v home +ℤ sum s) same_user mine))
      | inr other ↦
          rw (billed-Kept u h s s' kept, other)
            (elim (elsewhere u h) [
              | inl (same_user, same_group) ↦ ground (arith, other, same_user, same_group, payer)
              | inr same ↦ unmoved (bal e u h) (bal d u h) same
            ])
    ]

-- A row that is billed as before.
idle-Fair :
    (s s' : Session) (d e : Db)
    → Kept s s'
    → sum s' ≡ sum s
    → ((u h : ℕ) → bal e u h ≡ bal d u h)
    → Fair s d (s', e)
idle-Fair s s' d e kept still same =
    (kept, λ u h. rw (billed-Kept u h s s' kept, same u h, still) (omega int_laws))

running_moved : (b b' t t' : ℤ) → t' ≡ t → (b' +ℤ t') +ℤ b ≡ (b +ℤ t) +ℤ b'
running_moved b b' t t' h = rw h (omega int_laws)

storage_moved : (b b' t t' : ℤ) → b' ≡ b → (b' +ℤ t') +ℤ t ≡ (b +ℤ t) +ℤ t'
storage_moved b b' t t' h = rw h (omega int_laws)

settle-Fair :
    (meter : Meter) (charger : Option Service) (now : ℕ) (s : Session) (d : Db)
    → group_or_zero s.group_id ≢ 0
    → Fair s d (settle meter charger now false s d)
unfolding settle
settle-Fair meter none now s d named = idle-Fair s s d d (refl, refl) refl (λ u h. refl)
settle-Fair meter (some svc) now s d named = by_start s.started_at refl
  where
    row :
        Kept s ((settle meter (some svc) now false s d).0)
        × ((settle meter (some svc) now false s d).0.storage_billed_credits
            ≡ s.storage_billed_credits)
    row =
        settle_row (λ x. Kept s x × (x.storage_billed_credits ≡ s.storage_billed_credits)) s d
          ((refl, refl), refl) (λ x c p. p) (λ x p. p) (λ x o p. p) meter (some svc) now false

    by_start : (o : Option ℕ) → s.started_at ≡ o → Fair s d (settle meter (some svc) now false s d)
    by_start (some t) e =
        Settled-Fair svc d s (meter s.price_per_hour (now - t) -ℤ s.billed_credits)
          (λ x. x.billed_credits) (settle meter (some svc) now false s d) named
          (settle-Settled svc d s meter now false t e) row.0
          (running_moved s.billed_credits ((settle meter (some svc) now false s d).0.billed_credits)
            s.storage_billed_credits
            ((settle meter (some svc) now false s d).0.storage_billed_credits) row.1)
    by_start none e = elim (Bool-cases (leb_ℤ s.price_per_hour (pos 0))) [
      | inl free ↦ rw free (idle-Fair s s d d (refl, refl) refl (λ u h. refl))
      | inr priced ↦ rw (priced, e) (idle-Fair s s d d (refl, refl) refl (λ u h. refl))
    ]

storage-Fair :
    (price : ℤ) (charger : Option Service) (now : ℕ) (s : Session) (d : Db)
    → group_or_zero s.group_id ≢ 0
    → (since : ℕ) → s.stopped_since ≡ some since
    → Fair s d (settle_storage (record { storage_price = price; charger = charger }) now s d)
unfolding settle_storage settle_since charge_storage
storage-Fair price none now s d named since e =
    subst
      (λ (o : Option ℕ). Fair s d (elim o as (λ _. Session × Db) [
        | none ↦ (s, d)
        | some t ↦ settle_since (record { storage_price = price; charger = none }) now t s d
      ]))
      (sym e)
      (written_elim (Fair s d) s
        (record s {
          stopped_seconds = s.stopped_seconds + elapsed_seconds since now;
          stopped_since = some now;
        })
        d (λ fs. idle-Fair s s d (at d fs) (refl, refl) refl (λ u h. refl))
        (λ fs. ((refl, refl), λ u h. omega int_laws)))
storage-Fair price (some svc) now s d named since e =
    let b : Biller = record { storage_price = price; charger = some svc } in
    let row =
      storage_row (λ x. Kept s x × (x.billed_credits ≡ s.billed_credits)) b now s d
        ((refl, refl), refl) (λ total c. ((refl, refl), refl)) in
    Settled-Fair svc d s (storage_due svc d s b now since) (λ x. x.storage_billed_credits)
      (settle_storage b now s d) named ((settle_storage-StorageSettled svc d s price now since e).0)
      row.0
      (storage_moved s.billed_credits ((settle_storage b now s d).0.billed_credits)
        s.storage_billed_credits ((settle_storage b now s d).0.storage_billed_credits) row.1)

pub running-Fair :
    (meter : Meter) (b : Biller) (now : ℕ) (s : Session) (d : Db)
    → group_or_zero s.group_id ≢ 0
    → Fair s d (bill_running_row meter b now s d)
unfolding bill_running_row
running-Fair meter b now s d named = elim (Bool-cases (is_running s.phase)) [
  | inl runs ↦ rw runs (settle-Fair meter b.charger now s d named)
  | inr rests ↦ rw rests (idle-Fair s s d d (refl, refl) refl (λ u h. refl))
]

stopped-Fair :
    (b : Biller) (now : ℕ) (s : Session) (d : Db)
    → group_or_zero s.group_id ≢ 0
    → Fair s d (bill_stopped b now s d)
unfolding bill_stopped
stopped-Fair b now s d named = by_since s.stopped_since refl
  where
    by_since :
        (o : Option ℕ)
        → s.stopped_since ≡ o
        → Fair s d (elim o as (λ _. Session × Db) [
          | none ↦ written s (record s { stopped_since = some now }) d
          | some _ ↦ settle_storage b now s d
        ])
    by_since none e =
        written_elim (Fair s d) s (record s { stopped_since = some now }) d
          (λ fs. idle-Fair s s d (at d fs) (refl, refl) refl (λ u h. refl))
          (λ fs. ((refl, refl), λ u h. omega int_laws))
    by_since (some t) e = storage-Fair b.storage_price b.charger now s d named t e

pub stopped_row-Fair :
    (b : Biller) (now : ℕ) (s : Session) (d : Db)
    → group_or_zero s.group_id ≢ 0
    → Fair s d (bill_stopped_row b now s d)
unfolding bill_stopped_row
stopped_row-Fair b now s d named = elim (Bool-cases (not (is_running s.phase) && not s.ssh)) [
  | inl counted ↦ rw counted (stopped-Fair b now s d named)
  | inr other ↦ rw other (idle-Fair s s d d (refl, refl) refl (λ u h. refl))
]
