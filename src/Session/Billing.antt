-- ===== src/Session/Billing.antt =====
-- backend/internal/session/service.go: the biller of running and of stopped sessions. The charger is
-- the wallet service. An instant is in nanoseconds; what Go computes in float64 is a parameter.
pub mod Charges
pub mod StorageCharges
pub mod Once
pub mod Rows
pub mod Works
pub mod Clear
pub mod Storage
use Prim.Native.String.{◌++◌}
use giosk.Prelude.{
  ℕ, ◌+◌, ◌-◌, ◌*◌, ◌/◌, ◌%◌, Bool, true, false, ◌||◌, Option, none, some, List, [], ◌∷◌, String,
  str_eq, ℤ, pos, negsuc, ◌-ℤ◌, sub_ℕ, ltb_ℤ, leb_ℤ, ltb, ◌==◌, if◌then◌else◌,
}
use giosk.Wallet.Db.{Db, Result, ok, err, written}
use giosk.Wallet.Service.{Service, consume}

pub data Phase : Type 0 where
  running stopped : Phase

pub record Session : Type 0 where
  pub instance_id : String
  pub ssh : Bool
  pub user_id : ℕ
  pub group_id : Option ℕ
  pub phase : Phase
  pub price_per_hour : ℤ
  pub started_at : Option ℕ
  pub billed_credits : ℤ
  pub stopped_since : Option ℕ
  pub stopped_seconds : ℕ
  pub storage_billed_credits : ℤ

-- The 64 bits of a product, read as an int64.
abbrev pub int64 : ℕ → ℤ
int64 n =
    let m = n % 18446744073709551616 in
    if ltb m 9223372036854775808 then pos m else sub_ℕ m 18446744073709551616

-- Go's `/` on int64, by a positive number.
abbrev pub quotient : ℤ → ℕ → ℤ
quotient (pos n) m = pos (n / m)
quotient (negsuc n) m = sub_ℕ 0 ((n + 1) / m)

-- homeSizeGiB
abbrev pub home_size_gib : ℕ
home_size_gib = 10

-- secondsPerMonth
abbrev pub seconds_per_month : ℕ
seconds_per_month = 2628000

pub storage_due_of : ℕ → ℤ → ℤ
storage_due_of seconds (negsuc _) = pos 0
storage_due_of seconds (pos price) =
    if seconds == 0 || price == 0
    then pos 0
    else quotient (int64 (home_size_gib * price * seconds)) seconds_per_month

abbrev pub nanoseconds : ℕ
nanoseconds = 1000000000

-- int(d.Seconds()) of the time from `since` to `now`, 0 where it is negative.
abbrev pub elapsed_seconds : ℕ → ℕ → ℕ
elapsed_seconds since now = (now - since) / nanoseconds

abbrev pub group_or_zero : Option ℕ → ℕ
group_or_zero none = 0
group_or_zero (some g) = g

-- The storage price of the settings (0 without a reader), and the charger.
pub record Biller : Type 0 where
  pub storage_price : ℤ
  pub charger : Option Service

-- What has been billed for storage once `total_due` is demanded.
demand : Service → ℤ → Session → Db → ℤ × Db
demand svc total_due sess d =
    let due = total_due -ℤ sess.storage_billed_credits in
    let (r, e) =
      consume svc sess.user_id (group_or_zero sess.group_id) due ("sh-" ++ sess.instance_id) d in
    if ltb_ℤ (pos 0) due
    then (
      elim r [
        | ok paid ↦ if paid then total_due else sess.storage_billed_credits
        | err _ ↦ sess.storage_billed_credits
      ],
      e,
    )
    else (sess.storage_billed_credits, d)

charge_storage : Biller → ℕ → Session → Db → ℤ × Db
unfolding demand storage_due_of
charge_storage b total sess d = elim b.charger [
  | none ↦ (sess.storage_billed_credits, d)
  | some svc ↦
      if ltb_ℤ (pos 0) b.storage_price
      then demand svc (storage_due_of total b.storage_price) sess d
      else (sess.storage_billed_credits, d)
]

-- settleStorage, of a session that has been stopped since `since`.
settle_since : Biller → ℕ → ℕ → Session → Db → Session × Db
unfolding charge_storage
settle_since b now since sess d =
    let total = sess.stopped_seconds + elapsed_seconds since now in
    let (billed, e) = charge_storage b total sess d in
    written sess
      (record sess {
        stopped_seconds = total;
        storage_billed_credits = billed;
        stopped_since = some now;
      })
      e

pub settle_storage : Biller → ℕ → Session → Db → Session × Db
unfolding settle_since
settle_storage b now sess d = elim sess.stopped_since [
  | none ↦ (sess, d)
  | some since ↦ settle_since b now since sess d
]

-- int(float64(price) * elapsed / 3600.0) for the nanoseconds elapsed.
abbrev pub Meter : Type 0
Meter = ℤ → ℕ → ℤ

-- stopForBilling, on the row: a session that is not a leased machine is marked first.
stop_for_billing : ℕ → Session → Db → Session × Db
stop_for_billing now sess d =
    if sess.ssh
    then written sess (record sess { phase = stopped }) d
    else (let (marked, e) = written sess (record sess { stopped_since = some now }) d in
        written marked (record marked { phase = stopped }) e)

-- settle once `total_due` is known to be more than what was billed.
settle_due : Service → ℕ → Bool → ℤ → Session → Db → Session × Db
unfolding stop_for_billing
settle_due svc now final total_due sess d =
    let due = total_due -ℤ sess.billed_credits in
    let (r, e) = consume svc sess.user_id (group_or_zero sess.group_id) due sess.instance_id d in
    elim r [
      | err _ ↦ (sess, e)
      | ok paid ↦
          if paid
          then written sess (record sess { billed_credits = total_due }) e
          else if final
          then (sess, e)
          else stop_for_billing now sess e
    ]

settle_from : Meter → Service → ℕ → Bool → ℕ → Session → Db → Session × Db
unfolding settle_due
settle_from meter svc now final started sess d =
    let total_due = meter sess.price_per_hour (now - started) in
    if leb_ℤ (total_due -ℤ sess.billed_credits) (pos 0)
    then (sess, d)
    else settle_due svc now final total_due sess d

-- settle, without the journal of usage.
pub settle : Meter → Option Service → ℕ → Bool → Session → Db → Session × Db
unfolding settle_from
settle meter charger now final sess d = elim charger [
  | none ↦ (sess, d)
  | some svc ↦ if leb_ℤ sess.price_per_hour (pos 0) then (sess, d) else elim sess.started_at [
    | none ↦ (sess, d)
    | some started ↦ settle_from meter svc now final started sess d
  ]
]
