-- ===== src/Wallet/Store.antt =====
-- backend/internal/wallet/repo.go: the ledger operations. A gorm transaction is one `attempt`.
pub mod Balance
pub mod Effects
pub mod Answers
use giosk.Prelude.{
  ℕ, Bool, true, false, ◌&&◌, Option, none, some, List, [], ◌∷◌, ◌++◌, String, str_eq, ℤ, pos, ◌+ℤ◌,
  ◌-ℤ◌, leb_ℤ, ltb, ◌==◌, if◌then◌else◌, first_where, update_where, insert_ignore,
}
use giosk.Wallet.Db.{
  UserWallet, GroupWallet, TxType, UserTx, GroupTx, Membership, Db, Action, ◌>>=◌, ◌>>◌, pure,
  attempt,
}

abbrev pub user_key : ℕ → ℕ → UserWallet → Bool
user_key u g w = w.user_id == u && w.group_id == g

abbrev pub group_key : ℕ → GroupWallet → Bool
group_key g w = w.group_id == g

abbrev pub new_user_wallet : ℕ → ℕ → UserWallet
new_user_wallet u g = record {
  user_id = u;
  group_id = g;
  balance = pos 0;
  recurring_credit = pos 0;
  refill_interval_days = pos 0;
  carryover = false;
  cycle_started_at = none;
}

abbrev pub new_group_wallet : ℕ → GroupWallet
new_group_wallet g = record {
  group_id = g;
  balance = pos 0;
  reserved = pos 0;
  budget_cap = pos 0;
  alert_threshold_pct = pos 80;
  default_member_budget = pos 0;
  recurring_credit = pos 0;
  refill_interval_days = pos 0;
  carryover = false;
  cycle_started_at = none;
}

pub ensure_user : ℕ → ℕ → List UserWallet → List UserWallet
ensure_user u g ws = insert_ignore (user_key u g) (new_user_wallet u g) ws

pub ensure_group : ℕ → List GroupWallet → List GroupWallet
ensure_group g ws = insert_ignore (group_key g) (new_group_wallet g) ws

-- UPDATE user_wallets SET balance = balance + a
pub add_user : ℕ → ℕ → ℤ → List UserWallet → List UserWallet
add_user u g a ws = update_where (user_key u g) (λ w. record w { balance = w.balance +ℤ a }) ws

pub add_group : ℕ → ℤ → List GroupWallet → List GroupWallet
add_group g a ws = update_where (group_key g) (λ w. record w { balance = w.balance +ℤ a }) ws

-- SELECT balance: 0 where the scan finds no row.
unfoldable pub user_balance : ℕ → ℕ → List UserWallet → ℤ
user_balance u g ws = elim (first_where (user_key u g) ws) [ none ↦ pos 0 | some w ↦ w.balance ]

unfoldable pub group_balance : ℕ → List GroupWallet → ℤ
group_balance g ws = elim (first_where (group_key g) ws) [ none ↦ pos 0 | some w ↦ w.balance ]

pub group_reserved : ℕ → List GroupWallet → ℤ
group_reserved g ws = elim (first_where (group_key g) ws) [ none ↦ pos 0 | some w ↦ w.reserved ]

null_if_empty : String → Option String
null_if_empty s = if str_eq s "" then none else some s

-- ApplyUserTx
pub apply_user_tx : ℕ → ℕ → TxType → ℤ → String → String → Option ℕ → Action ℤ
unfolding null_if_empty
apply_user_tx u g kind amount desc ref actor = attempt λ d.
    let ws = add_user u g amount (ensure_user u g d.user_wallets) in
    let bal = user_balance u g ws in
    let tx : UserTx = record {
      user_id = u;
      group_id = g;
      kind = kind;
      amount = amount;
      balance_after = bal;
      description = desc;
      ref = null_if_empty ref;
      actor = actor;
    } in
    (bal, record d { user_wallets = ws; user_txs = d.user_txs ++ tx ∷ [] })

-- ApplyGroupTx
pub apply_group_tx : ℕ → TxType → ℤ → Option ℕ → String → Action ℤ
apply_group_tx g kind amount actor ref = attempt λ d.
    let ws = add_group g amount (ensure_group g d.group_wallets) in
    let bal = group_balance g ws in
    let tx : GroupTx = record {
      group_id = g;
      kind = kind;
      amount = amount;
      balance_after = bal;
      reserved_after = group_reserved g ws;
      actor = actor;
      session_ref = ref;
    } in
    (bal, record d { group_wallets = ws; group_txs = d.group_txs ++ tx ∷ [] })

-- The row and the journal entry of a draw that is covered.
taken : ℕ → ℤ → Option ℕ → Db → Db
taken g amount actor d =
    let ws = add_group g (pos 0 -ℤ amount) (ensure_group g d.group_wallets) in
    let tx : GroupTx = record {
      group_id = g;
      kind = TxType.allocate;
      amount = pos 0 -ℤ amount;
      balance_after = group_balance g ws;
      reserved_after = group_reserved g ws;
      actor = actor;
      session_ref = "";
    } in
    record d { group_wallets = ws; group_txs = d.group_txs ++ tx ∷ [] }

-- `UPDATE … WHERE group_id = ? AND balance >= ?`, where the row is there.
draw_group : ℕ → ℤ → Option ℕ → Db → Bool × Db
draw_group g amount actor d =
    if leb_ℤ amount (group_balance g (ensure_group g d.group_wallets))
    then (true, taken g amount actor d)
    else (false, record d { group_wallets = ensure_group g d.group_wallets })

-- DrawGroupTx
pub draw_group_tx : ℕ → ℤ → Option ℕ → Action Bool
draw_group_tx g amount actor = attempt (draw_group g amount actor)

pub insert_user_row : ℕ → ℕ → Db → Unit {0} × Db
insert_user_row u g d = (tt, record d { user_wallets = ensure_user u g d.user_wallets })

find_user_row : ℕ → ℕ → Db → UserWallet × Db
find_user_row u g d = (
  elim (first_where (user_key u g) d.user_wallets) [ none ↦ new_user_wallet u g | some w ↦ w ],
  d,
)

-- UserWallet: INSERT IGNORE, then First.
pub user_wallet : ℕ → ℕ → Action UserWallet
user_wallet u g = do attempt (insert_user_row u g); attempt (find_user_row u g)

add_first_consumed : ℕ → ℤ → List Membership → List Membership
add_first_consumed u credits [] = []
add_first_consumed u credits (m ∷ ms) =
    if m.user_id == u
    then record m { consumed = m.consumed +ℤ credits } ∷ ms
    else m ∷ add_first_consumed u credits ms

-- AddMemberConsumed
pub add_member_consumed : ℕ → ℕ → ℤ → Action (Unit {0})
unfolding add_first_consumed
add_member_consumed u g credits = attempt λ d. (
  tt,
  record d {
    memberships =
        if ltb 0 g
        then update_where (λ (m : Membership). m.user_id == u && m.group_id == g)
            (λ m. record m { consumed = m.consumed +ℤ credits }) d.memberships
        else add_first_consumed u credits d.memberships;
  },
)
