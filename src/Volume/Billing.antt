-- ===== src/Volume/Billing.antt =====
-- backend/internal/volume/service.go: the storage biller (billStorageOnce). What Go computes in
-- float64 is a parameter.
pub mod Paid
pub mod Rows
use giosk.Prelude.{
  ℕ, ◌-◌, Bool, true, false, not, Option, none, some, List, [], ◌∷◌, ℤ, pos, ◌-ℤ◌, leb_ℤ, leb,
  if◌then◌else◌,
}
use giosk.Session.Billing.{group_or_zero}
use giosk.Wallet.Db.{Db, Result, ok, err, written}
use giosk.Wallet.Service.{Service as Charger, consume}
use giosk.Wallet.Service.Passes.{over_rows, listed}
use giosk.Volume.Store.{Status, pending, bound, failed, Volume}
use giosk.Volume.Quota.{Service, monthly_cost, pvc_of}

-- int(float64(cost) * hours / 720) for the cost of a month and the nanoseconds elapsed.
abbrev pub Meter : Type 0
Meter = ℤ → ℕ → ℤ

abbrev pub is_bound : Status → Bool
is_bound bound = true
is_bound pending = false
is_bound failed = false

-- What is due for a volume at `now`.
abbrev pub total_of : Meter → Service → ℕ → Volume → ℤ
total_of meter svc now v = meter (monthly_cost svc v.size_gib) (now - v.created_at)

charge_volume : Charger → ℕ → ℤ → Volume → Db → Volume × Db
charge_volume w owner total v d =
    let due = total -ℤ v.billed_credits in
    let (r, e) = consume w owner (group_or_zero v.group_id) due (pvc_of v) d in
    if leb_ℤ due (pos 0) then (v, d) else elim r [
      | err _ ↦ (v, e)
      | ok paid ↦ if paid then written v (record v { billed_credits = total }) e else (v, e)
    ]

-- The turn of a volume; one that ListBillable does not give is left alone.
pub bill_volume : Meter → Service → Charger → ℕ → Volume → Db → Volume × Db
unfolding charge_volume
bill_volume meter svc w now v d = if not (is_bound v.status) then (v, d) else elim v.owner_user_id [
  | none ↦ (v, d)
  | some owner ↦
      if leb now v.created_at then (v, d) else charge_volume w owner (total_of meter svc now v) v d
]

-- billStorageOnce, which runs where there is a charger.
pub bill_storage_once : Meter → Service → Charger → ℕ → List Volume → Db → List Volume × Db
unfolding bill_volume
bill_storage_once meter svc w now rows d =
    if leb_ℤ svc.price (pos 0)
    then (rows, d)
    else listed (over_rows (bill_volume meter svc w now)) rows d
