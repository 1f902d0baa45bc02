-- ===== src/Volume/Billing/Rows.antt =====
-- The storage biller changes nothing of a volume but what it has been billed.
use giosk.Prelude.{
  ℕ, ◌≡◌, refl, inl, inr, Bool, true, false, Option, none, some, List, [], ◌∷◌, ℤ, pos, ◌-ℤ◌, ◌≤ℤ◌,
  leb_ℤ, leb, Bool-cases, All, ◌<◌, ◌==◌, if◌then◌else◌,
}
use giosk.Session.Billing.{group_or_zero}
use giosk.Wallet.Db.{Db, Result, ok, err, written}
use giosk.Wallet.Db.Faults.{at, attempt_elim, written_elim}
use giosk.Wallet.Service.{Service as Charger, consume}
use giosk.Wallet.Service.Passes.{over_rows, listed}
use giosk.Volume.Store.{Volume, sum_gib, of_team}
use giosk.Volume.Quota.{Service, pvc_of}
use giosk.Volume.Quota.Sums.{Distinct}
use giosk.Volume.Quota.Tables.{Inv}
use giosk.Volume.Billing.{Meter, is_bound, total_of, charge_volume, bill_volume, bill_storage_once}

abbrev Same : Volume → Volume → Type 0
Same v v' =
    (v'.id ≡ v.id)
    × (v'.size_gib ≡ v.size_gib)
    × (v'.owner_user_id ≡ v.owner_user_id)
    × (v'.group_id ≡ v.group_id)

abbrev Sames : List Volume → List Volume → Type 0
Sames [] [] = Unit
Sames [] (_ ∷ _) = ⊥
Sames (_ ∷ _) [] = ⊥
Sames (v ∷ vs) (v' ∷ vs') = Same v v' × Sames vs vs'

Sames-refl : (vs : List Volume) → Sames vs vs
Sames-refl [] = tt
Sames-refl (v ∷ vs) = ((refl, refl, refl, refl), Sames-refl vs)

charge_volume-Same :
    (w : Charger) (owner : ℕ) (total : ℤ) (v : Volume) (d : Db)
    → Same v ((charge_volume w owner total v d).0)
unfolding charge_volume
charge_volume-Same w owner total v d =
    elim (Bool-cases (leb_ℤ (total -ℤ v.billed_credits) (pos 0))) [
      | inl none_due ↦ rw none_due (refl, refl, refl, refl)
      | inr some_due ↦ rw some_due (
          answered
            (consume w owner (group_or_zero v.group_id) (total -ℤ v.billed_credits) (pvc_of v) d))
    ]
  where
    answered :
        (r : Result Bool × Db)
        → Same v (
            (elim r.0 as (λ _. Volume × Db) [
              | err _ ↦ (v, r.1)
              | ok paid ↦
                  if paid then written v (record v { billed_credits = total }) r.1 else (v, r.1)
            ]).0)
    answered (err x, e) = (refl, refl, refl, refl)
    answered (ok false, e) = (refl, refl, refl, refl)
    answered (ok true, e) =
        written_elim (λ p. Same v p.0) v (record v { billed_credits = total }) e
          (λ fs. (refl, refl, refl, refl)) (λ fs. (refl, refl, refl, refl))

module _ (meter : Meter) (svc : Service) (w : Charger) (now : ℕ) where
  bill_volume-Same : (v : Volume) (d : Db) → Same v ((bill_volume meter svc w now v d).0)
  unfolding bill_volume
  bill_volume-Same v d = elim (Bool-cases (is_bound v.status)) [
    | inr other ↦ rw other (refl, refl, refl, refl)
    | inl counted ↦ rw counted (by_owner v.owner_user_id)
  ]
    where
      by_owner :
          (o : Option ℕ)
          → Same v (
              (elim o as (λ _. Volume × Db) [
                | none ↦ (v, d)
                | some owner ↦
                    if leb now v.created_at
                    then (v, d)
                    else charge_volume w owner (total_of meter svc now v) v d
              ]).0)
      by_owner none = (refl, refl, refl, refl)
      by_owner (some owner) = elim (Bool-cases (leb now v.created_at)) [
        | inl early ↦ rw early (refl, refl, refl, refl)
        | inr late ↦ rw late (charge_volume-Same w owner (total_of meter svc now v) v d)
      ]

  over_rows-Sames :
      (vs : List Volume) (d : Db) → Sames vs ((over_rows (bill_volume meter svc w now) vs d).0)
  unfolding over_rows
  over_rows-Sames [] d = tt
  over_rows-Sames (v ∷ vs) d =
      (bill_volume-Same v d, over_rows-Sames vs ((bill_volume meter svc w now v d).1))

  bill_storage_once-Sames :
      (vs : List Volume) (d : Db) → Sames vs ((bill_storage_once meter svc w now vs d).0)
  unfolding bill_storage_once listed
  bill_storage_once-Sames vs d = elim (Bool-cases (leb_ℤ svc.price (pos 0))) [
    | inl free ↦ rw free (Sames-refl vs)
    | inr priced ↦ rw priced (
        attempt_elim
          (λ r. Sames vs (
            (elim r.0 as (λ _. List Volume × Db) [
              | ok _ ↦ over_rows (bill_volume meter svc w now) vs r.1
              | err _ ↦ (vs, r.1)
            ]).0))
          (λ z. (tt, z)) d (λ fs. Sames-refl vs) (λ fs. over_rows-Sames vs (at d fs)))
  ]

All-Sames :
    (P : Volume → Type 0)
    → ((v v' : Volume) → Same v v' → P v → P v')
    → (vs vs' : List Volume) → Sames vs vs'
    → All P vs
    → All P vs'
All-Sames P f [] [] same h = tt
All-Sames P f [] (_ ∷ _) same h = elim same [ ]
All-Sames P f (_ ∷ _) [] same h = elim same [ ]
All-Sames P f (v ∷ vs) (v' ∷ vs') (same, sames) (h, hs) =
    (f v v' same h, All-Sames P f vs vs' sames hs)

Distinct-Sames : (vs vs' : List Volume) → Sames vs vs' → Distinct vs → Distinct vs'
Distinct-Sames [] [] same h = tt
Distinct-Sames [] (_ ∷ _) same h = elim same [ ]
Distinct-Sames (_ ∷ _) [] same h = elim same [ ]
Distinct-Sames (v ∷ vs) (v' ∷ vs') (same, sames) (apart, rest) = (
  All-Sames (λ (w : Volume). (w.id == v'.id) ≡ false) (λ w w' e k. rw e.0 k) vs vs' sames
      (rw same.0 apart),
  Distinct-Sames vs vs' sames rest,
)

sum_gib-Sames :
    (u g : ℕ) (vs vs' : List Volume)
    → Sames vs vs'
    → sum_gib (of_team u g) vs' ≡ sum_gib (of_team u g) vs
sum_gib-Sames u g [] [] same = refl
sum_gib-Sames u g [] (_ ∷ _) same = elim same [ ]
sum_gib-Sames u g (_ ∷ _) [] same = elim same [ ]
sum_gib-Sames u g (v ∷ vs) (v' ∷ vs') (same, sames) =
    rw (same.1, same.2, same.3, sum_gib-Sames u g vs vs' sames) refl

pub bill_storage_once-Inv :
    (meter : Meter) (svc svc' : Service) (w : Charger) (now next : ℕ) (vs : List Volume) (d : Db)
    → Inv svc vs next
    → Inv svc ((bill_storage_once meter svc' w now vs d).0) next
bill_storage_once-Inv meter svc svc' w now next vs d inv =
    let vs' = (bill_storage_once meter svc' w now vs d).0 in
    let sames : Sames vs vs' = bill_storage_once-Sames meter svc' w now vs d in
    (
      All-Sames (λ (v : Volume). pos 0 ≤ℤ v.size_gib) (λ v v' e k. rw e.1 k) vs vs' sames inv.0,
      All-Sames (λ (v : Volume). v.id < next) (λ v v' e k. rw e.0 k) vs vs' sames inv.1,
      Distinct-Sames vs vs' sames inv.2,
      λ u g h. rw (sum_gib-Sames u g vs vs' sames) (inv.3 u g h),
    )
