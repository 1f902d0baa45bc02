-- ===== src/Wallet/Refill/Schedule.antt =====
-- The refill settings, the immediate refill and the time of the next one:
-- backend/internal/wallet/service.go and backend/internal/wallet/refill.go.
pub mod Settings
mod Tests
use giosk.Prelude.{
  ℕ, Bool, true, false, ◌&&◌, ◌||◌, Option, none, some, List, [], ◌∷◌, ◌++◌, ℤ, pos, ◌+ℤ◌, ltb_ℤ,
  leb_ℤ, ◌==◌, if◌then◌else◌, first_where, update_where,
}
use giosk.Wallet.Db.{
  UserWallet, GroupWallet, TxType, UserTx, Organization, Group, Db, Action, ◌>>=◌, ◌>>◌, attempt,
  gets, pure, raise, ignore, no_recurring,
}
use giosk.Wallet.Store.{
  user_key, group_key, ensure_user, ensure_group, new_user_wallet, new_group_wallet,
  insert_user_row,
}
use giosk.Wallet.Service.{Service, plat_default}
use giosk.Wallet.Refill.{after_days, topped, org_id_of, PlatformRefill}

pub record RefillSpec : Type 0 where
  pub recurring : ℤ
  pub interval_days : ℤ
  pub carryover : Bool

-- The interval column of the group's organisation: 0 where the join finds no row.
interval_of_org : List Organization → ℕ → ℤ
interval_of_org os o = elim (first_where (λ (r : Organization). r.id == o) os) [
  | none ↦ pos 0
  | some r ↦ r.refill_interval_days
]

org_interval_days : Db → ℕ → ℤ
unfolding interval_of_org
org_interval_days d g = elim (org_id_of d.groups g) [
  | none ↦ pos 0
  | some o ↦ interval_of_org d.organizations o
]

-- COALESCE(gw.refill_interval_days, 0), for a group whose join finds a row.
group_interval_days : Db → ℕ → ℤ
group_interval_days d g = elim (org_id_of d.groups g) [
  | none ↦ pos 0
  | some o ↦ elim (first_where (λ (r : Organization). r.id == o) d.organizations) [
    | none ↦ pos 0
    | some r ↦ elim (first_where (group_key g) d.group_wallets) [
      | none ↦ pos 0
      | some w ↦ w.refill_interval_days
    ]
  ]
]

pub group_refill_cap : Db → ℕ → ℤ → ℤ
unfolding org_interval_days
group_refill_cap d g default =
    if ltb_ℤ (pos 0) (org_interval_days d g) then org_interval_days d g else default

pub user_refill_cap : Db → ℕ → ℤ → ℤ
unfolding org_interval_days group_interval_days
user_refill_cap d g default =
    if ltb_ℤ (pos 0) (group_interval_days d g)
    then group_interval_days d g
    else if ltb_ℤ (pos 0) (org_interval_days d g)
    then org_interval_days d g
    else default

-- The interval asked for, at most the cap where there is one.
clamped : ℤ → ℤ → ℤ
clamped cap iv = if ltb_ℤ (pos 0) cap && ltb_ℤ cap iv then cap else iv

insert_group_row : ℕ → Db → Unit {0} × Db
insert_group_row g d = (tt, record d { group_wallets = ensure_group g d.group_wallets })

write_group_refill : ℕ → ℤ → ℤ → Bool → Db → Unit {0} × Db
write_group_refill g recurring iv carry d = (
  tt,
  record d {
    group_wallets =
        update_where (group_key g)
          (λ w. record w {
            recurring_credit = recurring;
            refill_interval_days = iv;
            carryover = carry;
          })
          d.group_wallets;
  },
)

write_user_refill : ℕ → ℕ → ℤ → ℤ → Bool → Db → Unit {0} × Db
write_user_refill u g recurring iv carry d = (
  tt,
  record d {
    user_wallets =
        update_where (user_key u g)
          (λ w. record w {
            recurring_credit = recurring;
            refill_interval_days = iv;
            carryover = carry;
          })
          d.user_wallets;
  },
)

pub set_group_refill : Service → ℕ → RefillSpec → Action (Unit {0})
unfolding clamped write_group_refill insert_group_row group_refill_cap
set_group_refill s g spec = do
  iv ← gets (λ d. clamped (group_refill_cap d g (plat_default s)) spec.interval_days)
  ignore (attempt (insert_group_row g))
  attempt (write_group_refill g spec.recurring iv spec.carryover)

pub set_user_refill : Service → ℕ → ℕ → RefillSpec → Action (Unit {0})
set_user_refill s u g spec = do
  iv ← gets (λ d. clamped (user_refill_cap d g (plat_default s)) spec.interval_days)
  ignore (attempt (insert_user_row u g))
  attempt (write_user_refill u g spec.recurring iv spec.carryover)

-- The row that the scan reads: zero values where there is none.
pub found_user : ℕ → ℕ → Db → UserWallet
found_user u g d = elim (first_where (user_key u g) d.user_wallets) [
  | none ↦ new_user_wallet u g
  | some w ↦ w
]

found_group : ℕ → Db → GroupWallet
found_group g d = elim (first_where (group_key g) d.group_wallets) [
  | none ↦ new_group_wallet g
  | some w ↦ w
]

set_user_balance : ℕ → ℕ → ℤ → ℕ → Db → Unit {0} × Db
set_user_balance u g bal now d = (
  tt,
  record d {
    user_wallets =
        update_where (user_key u g) (λ w. record w { balance = bal; cycle_started_at = some now })
          d.user_wallets;
  },
)

set_group_balance : ℕ → ℤ → ℕ → Db → Unit {0} × Db
set_group_balance g bal now d = (
  tt,
  record d {
    group_wallets =
        update_where (group_key g) (λ w. record w { balance = bal; cycle_started_at = some now })
          d.group_wallets;
  },
)

journal_now : ℕ → ℕ → ℤ → ℤ → Db → Unit {0} × Db
journal_now u g recurring bal d =
    let tx : UserTx = record {
      user_id = u;
      group_id = g;
      kind = TxType.recharge;
      amount = recurring;
      balance_after = bal;
      description = "즉시 리필";
      ref = none;
      actor = none;
    } in
    (tt, record d { user_txs = d.user_txs ++ tx ∷ [] })

refill_user_row : ℕ → ℕ → ℕ → UserWallet → Action ℤ
refill_user_row now u g w =
    let bal = (if w.carryover then w.balance +ℤ w.recurring_credit else w.recurring_credit) in
    if leb_ℤ w.recurring_credit (pos 0) then raise no_recurring else do
      attempt (set_user_balance u g bal now)
      attempt (journal_now u g w.recurring_credit bal)
      pure w.recurring_credit

pub refill_now_user : ℕ → ℕ → ℕ → Action ℤ
unfolding refill_user_row
refill_now_user now u g = do w ← gets (found_user u g); refill_user_row now u g w

refill_group_row : ℕ → ℕ → GroupWallet → Action ℤ
refill_group_row now g w =
    let bal = (if w.carryover then w.balance +ℤ w.recurring_credit else w.recurring_credit) in
    if leb_ℤ w.recurring_credit (pos 0)
    then raise no_recurring
    else do attempt (set_group_balance g bal now); pure w.recurring_credit

pub refill_now_group : ℕ → ℕ → Action ℤ
refill_now_group now g = do w ← gets (found_group g); refill_group_row now g w

-- The time of the next refill.
pub next_refill : ℕ → ℤ → ℤ → Option ℕ → Option ℕ
next_refill now recurring eff cycle =
    if leb_ℤ recurring (pos 0) || leb_ℤ eff (pos 0)
    then none
    else elim cycle [ none ↦ some now | some c ↦ some (after_days c eff) ]

-- NextRefillAt of MyWallet.
pub user_next_refill : Service → ℕ → Db → UserWallet → Option ℕ
user_next_refill s now d w =
    let eff =
      (if leb_ℤ w.refill_interval_days (pos 0)
        then user_refill_cap d w.group_id (plat_default s)
        else w.refill_interval_days) in
    next_refill now w.recurring_credit eff w.cycle_started_at

-- NextRefillAt of GroupWallet.
pub group_next_refill : Service → ℕ → Db → GroupWallet → Option ℕ
group_next_refill s now d w =
    let eff =
      (if leb_ℤ w.refill_interval_days (pos 0)
        then group_refill_cap d w.group_id (plat_default s)
        else w.refill_interval_days) in
    next_refill now w.recurring_credit eff w.cycle_started_at
