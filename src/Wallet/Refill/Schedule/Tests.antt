-- ===== src/Wallet/Refill/Schedule/Tests.antt =====
-- Runs of the refill and of its settings.
use giosk.Prelude.{◌≡◌, refl, true, false, some, [], ◌∷◌, pos, ◌<ℤ◌, arith}
use giosk.Wallet.Db.{UserWallet, GroupWallet, Db}
use giosk.Wallet.Tests.{wallet, group_wallet, tables, service}
use giosk.Wallet.Service.{plat_default}
use giosk.Wallet.Refill.{
  above_with, PlatformRefill, after_days, due, org_id_of, group_eligible, group_interval, group_due,
  user_due, above_of, org_visits, org_eligible, org_interval, org_visit, refill,
}
use giosk.Wallet.Refill.Twice.{refill-twice}
use giosk.Wallet.Refill.Carry.{
  Each, OrgReset, GroupReset, UserReset, refill-Reset, MemberReset, refill-MemberReset,
}
use giosk.Wallet.Refill.Schedule.{
  RefillSpec, interval_of_org, org_interval_days, group_interval_days, user_refill_cap,
  user_next_refill,
}
use giosk.Wallet.Refill.Schedule.Settings.{user_next_refill-early}

abbrev monthly : PlatformRefill
monthly = record { interval_days = pos 30; carryover = false }

abbrev carrying : PlatformRefill
carrying = record { interval_days = pos 30; carryover = true }

refill-twice_example :
    refill monthly 5 (refill monthly 5 tables).1 ≡ (0, (refill monthly 5 tables).1)
refill-twice_example = refill-twice monthly 5 tables

turned : due tables.platform_cycle_started_at monthly.interval_days 5 ≡ true
unfolding due
turned = refl

refill-Reset_example :
    Each (OrgReset 5) tables.organizations (refill monthly 5 tables).1.organizations
    × (Each (GroupReset 5) tables.group_wallets (refill monthly 5 tables).1.group_wallets
        × Each (UserReset 5) tables.user_wallets (refill monthly 5 tables).1.user_wallets)
refill-Reset_example = refill-Reset monthly 5 tables refl turned

-- The tables without an organisation of their own.
abbrev no_orgs : Db
no_orgs = record tables { organizations = [] }

abbrev spending : GroupWallet
spending = record group_wallet { carryover = false }

abbrev spending_tables : Db
spending_tables = record tables { group_wallets = spending ∷ [] }

group-is_due : group_due (above_of carrying 5 spending_tables) spending ≡ true
unfolding group_due group_eligible group_interval above_of above_with due org_id_of org_visits
    org_eligible org_interval org_visit
group-is_due = refl

refill-MemberReset_example :
    Each
      (MemberReset 7 5)
      spending_tables.user_wallets
      (refill carrying 5 spending_tables).1.user_wallets
refill-MemberReset_example =
    refill-MemberReset carrying 5 spending_tables 7 spending refl refl group-is_due

abbrev asked : RefillSpec
asked = record { recurring = pos 20; interval_days = pos 90; carryover = true }

-- A group that refills weekly, and a member of it that was last refilled at the instant 0.
abbrev weekly_tables : Db
weekly_tables = record tables {
  group_wallets = record group_wallet { refill_interval_days = pos 7 } ∷ [];
}

abbrev refilled : UserWallet
refilled = record wallet { cycle_started_at = some 0 }

weekly-cap : user_refill_cap weekly_tables 7 (plat_default service) ≡ pos 7
unfolding user_refill_cap group_interval_days org_interval_days interval_of_org org_id_of
weekly-cap = refl

cap-positive : pos 0 <ℤ user_refill_cap weekly_tables 7 (plat_default service)
cap-positive = rw weekly-cap (ground arith)

cap-shorter : user_refill_cap weekly_tables 7 (plat_default service) <ℤ monthly.interval_days
cap-shorter = rw weekly-cap (ground arith)

user_next_refill-early_example :
    (user_next_refill service 5 weekly_tables refilled
      ≡ some (after_days 0 (user_refill_cap weekly_tables 7 (plat_default service))))
    × (user_due
          (above_of monthly
            (after_days 0 (user_refill_cap weekly_tables 7 (plat_default service)))
            weekly_tables)
          refilled
        ≡ false)
user_next_refill-early_example =
    user_next_refill-early service monthly 5 weekly_tables refilled 0 refl (ground arith)
      (ground arith) cap-positive cap-shorter
