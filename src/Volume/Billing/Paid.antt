-- ===== src/Volume/Billing/Paid.antt =====
-- In a tick of the storage biller no volume is billed for what its wallet did not pay.
use giosk.Prelude.{
  ℕ, ◌≡◌, ◌≢◌, refl, subst, inl, inr, Bool, true, false, ◌&&◌, Option, none, some, List, ℤ, pos,
  ◌+ℤ◌, ◌-ℤ◌, ◌≤ℤ◌, ◌<ℤ◌, int_laws, leb_ℤ, leb, arith, Bool-cases, All, ◌==◌, if◌then◌else◌,
}
use giosk.Session.Billing.{group_or_zero}
use giosk.Wallet.Db.{Db, Result, ok, err, written}
use giosk.Wallet.Db.Faults.{at, written_elim}
use giosk.Wallet.Store.Effects.{bal, Elsewhere}
use giosk.Wallet.Service.{Service as Charger, consume}
use giosk.Wallet.Service.Consume.{Consumed, consume-Consumed, resolve_group_named}
use giosk.Wallet.Service.Passes.{over_rows, over_rows-Passed, listed-Passed}
use giosk.Wallet.Service.Passes
use giosk.Volume.Store.{Volume, is_value}
use giosk.Volume.Quota.{Service, pvc_of}
use giosk.Volume.Billing.{Meter, is_bound, total_of, charge_volume, bill_volume, bill_storage_once}

-- The volume has a team that pays for it.
abbrev pub Named : Volume → Type 0
Named v = group_or_zero v.group_id ≢ 0

-- What the volume has been billed, on the wallet of `u` in `h`.
abbrev pub billed : ℕ → ℕ → Volume → ℤ
billed u h v =
    if is_value u v.owner_user_id && group_or_zero v.group_id == h then v.billed_credits else pos 0

abbrev Fair : Volume → Db → Volume × Db → Type 0
Fair = Passes.Fair Named billed

-- No wallet, with what its volumes have been billed, is worth more than before.
abbrev pub FairTo : ℕ → ℕ → List Volume → Db → List Volume × Db → Type 0
FairTo = Passes.FairTo Named billed

lower : (x y c b : ℤ) → x ≡ y +ℤ (pos 0 -ℤ c) → pos 0 <ℤ c → x +ℤ b ≤ℤ y +ℤ b
lower x y c b p q = rw p (omega (int_laws, q))

even : (x y t b : ℤ) → x ≡ y +ℤ (pos 0 -ℤ (t -ℤ b)) → x +ℤ t ≤ℤ y +ℤ b
even x y t b p = rw p (omega int_laws)

unmoved : (x y b : ℤ) → x ≡ y → x +ℤ b ≤ℤ y +ℤ b
unmoved x y b p = rw p (omega int_laws)

module _ (d : Db) (owner : ℕ) (v : Volume) (own : v.owner_user_id ≡ some owner)
    (named : Named v) where
  abbrev team : ℕ
  team = group_or_zero v.group_id

  -- Only the wallet that pays has changed, and it with its volume is not worth more.
  paid-Fair :
      (e : Db) (b : ℤ)
      → bal e owner team +ℤ b ≤ℤ bal d owner team +ℤ v.billed_credits
      → Elsewhere owner team d e
      → Fair v d (record v { billed_credits = b }, e)
  paid-Fair e b mine elsewhere = (
    named,
    λ u h. elim (Bool-cases (owner == u && group_or_zero v.group_id == h)) [
      | inl match ↦
          let same_user : owner ≡ u = ground (arith, match) in
          let same_team : group_or_zero v.group_id ≡ h = ground (arith, match) in
          rw (own, match)
            (subst (λ (k : ℕ). bal e u k +ℤ b ≤ℤ bal d u k +ℤ v.billed_credits) same_team
              (subst (λ (w : ℕ). bal e w team +ℤ b ≤ℤ bal d w team +ℤ v.billed_credits) same_user
                mine))
      | inr other ↦
          rw (own, other)
            (elim (elsewhere u h) [
              | inl (same_user, same_team) ↦ ground (arith, other, same_user, same_team)
              | inr same ↦ unmoved (bal e u h) (bal d u h) (pos 0) same
            ])
    ],
  )

  idle-Fair : (e : Db) → ((u h : ℕ) → bal e u h ≡ bal d u h) → Fair v d (v, e)
  idle-Fair e same = (named, λ u h. unmoved (bal e u h) (bal d u h) (billed u h v) (same u h))

  answered-Fair :
      (total : ℤ)
      → pos 0 <ℤ (total -ℤ v.billed_credits)
      → (r : Result Bool × Db) → Consumed owner team (total -ℤ v.billed_credits) d r
      → Fair v d (elim r.0 as (λ _. Volume × Db) [
        | err _ ↦ (v, r.1)
        | ok paid ↦ if paid then written v (record v { billed_credits = total }) r.1 else (v, r.1)
      ])
  answered-Fair total positive (err x, e) q = idle-Fair e q.1
  answered-Fair total positive (ok false, e) q = idle-Fair e q.1
  answered-Fair total positive (ok true, e) (_, taken, elsewhere) =
      written_elim (Fair v d) v (record v { billed_credits = total }) e
        (λ fs.
          paid-Fair (at e fs) v.billed_credits
            (lower (bal e owner team) (bal d owner team) (total -ℤ v.billed_credits)
              v.billed_credits taken positive)
            elsewhere)
        (λ fs.
          paid-Fair (at e fs) total
            (even (bal e owner team) (bal d owner team) total v.billed_credits taken) elsewhere)

  charge_volume-Fair : (w : Charger) (total : ℤ) → Fair v d (charge_volume w owner total v d)
  unfolding charge_volume
  charge_volume-Fair w total = elim (Bool-cases (leb_ℤ (total -ℤ v.billed_credits) (pos 0))) [
    | inl none_due ↦ rw none_due (idle-Fair d (λ u h. refl))
    | inr some_due ↦
        let positive : pos 0 <ℤ (total -ℤ v.billed_credits) = ground (arith, some_due) in
        rw some_due (
          answered-Fair total positive
            (consume w owner team (total -ℤ v.billed_credits) (pvc_of v) d)
            (subst
              (λ (h : ℕ).
                Consumed owner h (total -ℤ v.billed_credits) d
                  (consume w owner team (total -ℤ v.billed_credits) (pvc_of v) d))
              (resolve_group_named w d owner team named)
              (consume-Consumed w owner team (total -ℤ v.billed_credits) (pvc_of v) d positive)))
  ]

module _ (meter : Meter) (svc : Service) (w : Charger) (now : ℕ) where
  bill_volume-Fair : (v : Volume) (d : Db) → Named v → Fair v d (bill_volume meter svc w now v d)
  unfolding bill_volume
  bill_volume-Fair v d named = elim (Bool-cases (is_bound v.status)) [
    | inr other ↦ rw other (named, λ u h. unmoved (bal d u h) (bal d u h) (billed u h v) refl)
    | inl counted ↦ rw counted (by_owner v.owner_user_id refl)
  ]
    where
      by_owner :
          (o : Option ℕ)
          → v.owner_user_id ≡ o
          → Fair v d (elim o as (λ _. Volume × Db) [
            | none ↦ (v, d)
            | some owner ↦
                if leb now v.created_at
                then (v, d)
                else charge_volume w owner (total_of meter svc now v) v d
          ])
      by_owner none own = (named, λ u h. unmoved (bal d u h) (bal d u h) (billed u h v) refl)
      by_owner (some owner) own = elim (Bool-cases (leb now v.created_at)) [
        | inl early ↦ rw early (idle-Fair d owner v own named d (λ u h. refl))
        | inr late ↦ rw late (charge_volume-Fair d owner v own named w (total_of meter svc now v))
      ]

  -- In a tick of the storage biller over all volumes, where each has a team, what a wallet holds and
  -- what its volumes have been billed do not grow together, whatever query, charge or write fails: no
  -- volume is billed for what its wallet did not pay.
  pub bill_storage_once-FairTo :
      (rows : List Volume) (d : Db) (u h : ℕ)
      → All Named rows
      → FairTo u h rows d (bill_storage_once meter svc w now rows d)
  unfolding bill_storage_once
  bill_storage_once-FairTo rows d u h named = elim (Bool-cases (leb_ℤ svc.price (pos 0))) [
    | inl free ↦ rw free (omega int_laws)
    | inr priced ↦ rw priced (
        (listed-Passed Named billed (over_rows (bill_volume meter svc w now)) rows d named (λ fs.
            over_rows-Passed Named billed (bill_volume meter svc w now) bill_volume-Fair rows
              (at d fs) named)).1
          u h)
  ]
