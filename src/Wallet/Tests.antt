-- ===== src/Wallet/Tests.antt =====
-- Runs of the ledger on a user 1 of the group 7 of the organisation 3.
use giosk.Prelude.{refl, true, false, none, some, [], ◌∷◌, pos, ◌≤ℤ◌, arith}
use giosk.Wallet.Db.{UserWallet, GroupWallet, Db}
use giosk.Wallet.Db.Faults.{at}
use giosk.Wallet.Store.{user_balance, group_balance}
use giosk.Wallet.Store.Effects.{gbal}
use giosk.Wallet.Service.{Service, resolve_group, consume, allocate_user}
use giosk.Wallet.Service.Consume.{Consumed, consume-Consumed, NoDebt}
use giosk.Wallet.Service.Allocate.{Allocated, allocate_user-Allocated, Lost, allocate_user-loses}

abbrev pub wallet : UserWallet
wallet = record {
  user_id = 1;
  group_id = 7;
  balance = pos 100;
  recurring_credit = pos 10;
  refill_interval_days = pos 0;
  carryover = true;
  cycle_started_at = none;
}

abbrev pub group_wallet : GroupWallet
group_wallet = record {
  group_id = 7;
  balance = pos 500;
  reserved = pos 0;
  budget_cap = pos 0;
  alert_threshold_pct = pos 80;
  default_member_budget = pos 0;
  recurring_credit = pos 50;
  refill_interval_days = pos 0;
  carryover = true;
  cycle_started_at = none;
}

abbrev pub tables : Db
tables = record {
  user_wallets = wallet ∷ [];
  group_wallets = group_wallet ∷ [];
  user_txs = [];
  group_txs = [];
  organizations =
      record {
        id = 3;
        credit_pool = pos 1000;
        recurring_credit = pos 0;
        refill_interval_days = pos 0;
        carryover = false;
        recurring_cycle_started_at = none;
        is_active = true;
      }
      ∷ [];
  groups = record { id = 7; org_id = 3 } ∷ [];
  memberships = record { user_id = 1; group_id = 7; is_active = true; consumed = pos 0 } ∷ [];
  platform_cycle_started_at = none;
  faults = false ∷ true ∷ [];
}

abbrev pub service : Service
service = record { pool = true; finds_group = true; plat_interval = none }

consume-Consumed_example :
    Consumed 1
      (resolve_group service tables 1 7)
      (pos 40)
      tables
      (consume service 1 7 (pos 40) "i-1" tables)
consume-Consumed_example = consume-Consumed service 1 7 (pos 40) "i-1" tables (ground arith)

tables-NoDebt : NoDebt tables
unfolding user_balance
tables-NoDebt u g = ground arith

allocate_user-Allocated_example :
    Allocated 1 7 (pos 30) tables (allocate_user service 1 7 (pos 30) false "grant" (some 2) tables)
allocate_user-Allocated_example =
    allocate_user-Allocated service 1 7 (pos 30) "grant" (some 2) tables refl (ground arith)
      (ground arith)

pool-covers : pos 30 ≤ℤ gbal tables 7
unfolding group_balance
pool-covers = ground arith

allocate_user-loses_example :
    Lost 1 7
      (pos 30)
      tables
      (allocate_user service 1 7 (pos 30) false "grant" (some 2) (at tables (false ∷ true ∷ [])))
allocate_user-loses_example =
    allocate_user-loses service 1 7 (pos 30) "grant" (some 2) tables [] refl (ground arith)
      (ground arith) pool-covers
