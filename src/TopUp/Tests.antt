-- ===== src/TopUp/Tests.antt =====
-- Runs of the review.
use giosk.Prelude.{◌≡◌, refl, true, none, some, [], ◌∷◌, pos, ◌+ℤ◌, arith}
use giosk.Wallet.Db.{Db, ok}
use giosk.Wallet.Store.Effects.{bal}
use giosk.Wallet.Service.{Service, resolve_group}
use giosk.Wallet.Pool.{org_of_user, covers_pool}
use giosk.TopUp.{pending, approved, Request, CreateReq, State, approve_found}
use giosk.TopUp.Review.{Row, approve_op, reject_op, create_op, run, run-Row}
use giosk.TopUp.Approval.{approve_found-twice}

abbrev tables : Db
tables = record {
  user_wallets = [];
  group_wallets = [];
  user_txs = [];
  group_txs = [];
  organizations =
      record {
        id = 3;
        credit_pool = pos 100;
        recurring_credit = pos 0;
        refill_interval_days = pos 0;
        carryover = true;
        recurring_cycle_started_at = none;
        is_active = true;
      }
      ∷ [];
  groups = record { id = 7; org_id = 3 } ∷ [];
  memberships = record { user_id = 1; group_id = 7; is_active = true; consumed = pos 0 } ∷ [];
  platform_cycle_started_at = none;
  faults = [];
}

abbrev waiting : Request
waiting = record {
  id = 4;
  requester = 1;
  target_type = "user";
  target_id = 1;
  amount = pos 30;
  reason = "training";
  status = pending;
  reviewer = none;
}

abbrev closed : Request
closed = record waiting { status = approved; reviewer = some 2 }

abbrev state_of : Request → State
state_of q = record { requests = q ∷ []; next_id = 5; db = tables }

abbrev asked : CreateReq
asked = record { target_type = "user"; target_id = 0; amount = pos 5; reason = "" }

abbrev service : Service
service = record { pool = true; finds_group = true; plat_interval = none }

in_org : org_of_user tables 1 ≡ some 3
unfolding org_of_user
in_org = refl

pool_covers : covers_pool 3 (pos 30 +ℤ pos 30) tables.organizations ≡ true
unfolding covers_pool ◌+ℤ◌
pool_covers = refl

run-Row_example :
    Row 4 closed
      (run service (create_op 3 asked ∷ reject_op 4 9 ∷ approve_op 4 9 ∷ []) (state_of closed))
run-Row_example =
    run-Row service 4 closed refl (create_op 3 asked ∷ reject_op 4 9 ∷ approve_op 4 9 ∷ [])
      (state_of closed) refl

approve_found-twice_example :
    let first = approve_found service 4 2 waiting (state_of waiting) in
    let second = approve_found service 4 9 waiting first.1 in
    let h = resolve_group service tables 1 0 in
    (first.0 ≡ ok tt)
    × ((second.0 ≡ ok tt) × (bal second.1.db 1 h ≡ bal tables 1 h +ℤ pos 30 +ℤ pos 30))
approve_found-twice_example =
    approve_found-twice service waiting refl refl (ground arith) 4 2 9 3 (state_of waiting) refl
      refl in_org pool_covers
