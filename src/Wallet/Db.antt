-- ===== src/Wallet/Db.antt =====
-- The tables that the wallet package reads and writes, and the statements that may fail.
-- Columns that no operation here reads are left out.
pub mod Faults
use giosk.Prelude.{ℕ, Bool, true, false, Option, none, List, [], ◌∷◌, String, ℤ, pos}

-- user_wallets, with the primary key (user_id, group_id).
pub record UserWallet : Type 0 where
  pub user_id : ℕ
  pub group_id : ℕ
  pub balance : ℤ
  pub recurring_credit : ℤ
  pub refill_interval_days : ℤ
  pub carryover : Bool
  pub cycle_started_at : Option ℕ

pub record GroupWallet : Type 0 where
  pub group_id : ℕ
  pub balance : ℤ
  pub reserved : ℤ
  pub budget_cap : ℤ
  pub alert_threshold_pct : ℤ
  pub default_member_budget : ℤ
  pub recurring_credit : ℤ
  pub refill_interval_days : ℤ
  pub carryover : Bool
  pub cycle_started_at : Option ℕ

pub data TxType : Type 0 where
  topup hold consume settle refund admin_grant recharge allocate : TxType

-- credit_transactions, the newest row last. `ref` is `none` for NULL.
pub record UserTx : Type 0 where
  pub user_id : ℕ
  pub group_id : ℕ
  pub kind : TxType
  pub amount : ℤ
  pub balance_after : ℤ
  pub description : String
  pub ref : Option String
  pub actor : Option ℕ

-- group_credit_transactions
pub record GroupTx : Type 0 where
  pub group_id : ℕ
  pub kind : TxType
  pub amount : ℤ
  pub balance_after : ℤ
  pub reserved_after : ℤ
  pub actor : Option ℕ
  pub session_ref : String

pub record Organization : Type 0 where
  pub id : ℕ
  pub credit_pool : ℤ
  pub recurring_credit : ℤ
  pub refill_interval_days : ℤ
  pub carryover : Bool
  pub recurring_cycle_started_at : Option ℕ
  pub is_active : Bool

pub record Group : Type 0 where
  pub id : ℕ
  pub org_id : ℕ

-- memberships, in the order of their ids.
pub record Membership : Type 0 where
  pub user_id : ℕ
  pub group_id : ℕ
  pub is_active : Bool
  pub consumed : ℤ

-- `faults` says of each statement outside a transaction, and of each transaction, whether it fails;
-- past its end none does.
pub record Db : Type 0 where
  pub user_wallets : List UserWallet
  pub group_wallets : List GroupWallet
  pub user_txs : List UserTx
  pub group_txs : List GroupTx
  pub organizations : List Organization
  pub groups : List Group
  pub memberships : List Membership
  pub platform_cycle_started_at : Option ℕ
  pub faults : List Bool

pub data Error : Type 0 where
  db_error insufficient_pool no_group insufficient_group_pool no_recurring : Error
  -- of backend/internal/topup
  not_found already_reviewed unknown_target : Error

pub data Result (A : Type 0) : Type 0 where
  ok : A → Result A
  err : Error → Result A

-- What was written before an error stays written.
abbrev pub Action : Type 0 → Type 0
Action A = Db → Result A × Db

infixl 5 ◌>>=◌ ◌>>◌
abbrev pub ◌>>=◌ : {A B : Type 0} → Action A → (A → Action B) → Action B
◌>>=◌ m f d = let (r, d') = m d in elim r [ ok a ↦ f a d' | err e ↦ (err e, d') ]

abbrev pub ◌>>◌ : {A B : Type 0} → Action A → Action B → Action B
m >> k = m >>= λ _. k

abbrev pub pure : {A : Type 0} → A → Action A
pure a d = (ok a, d)

abbrev pub raise : {A : Type 0} → Error → Action A
raise e d = (err e, d)

-- The next statement or transaction: it fails and changes nothing, or has its effect.
unfoldable pub attempt : {A : Type 0} → (Db → A × Db) → Action A
attempt f d = elim d.faults [
  | [] ↦ let (a, d') = f (record d { faults = [] }) in (ok a, d')
  | true ∷ rest ↦ (err db_error, record d { faults = rest })
  | false ∷ rest ↦ let (a, d') = f (record d { faults = rest }) in (ok a, d')
]

-- A read whose error the source does not look at.
abbrev pub gets : {A : Type 0} → (Db → A) → Action A
gets f d = (ok (f d), d)

-- `_ = f()`: an error that the source drops.
abbrev pub ignore : {A : Type 0} → Action A → Action (Unit {0})
ignore m d = (ok tt, (m d).1)

-- A write of a row, whose error is dropped: the row that is there afterwards.
abbrev pub written : {R : Type 0} → R → R → Db → R × Db
written old new d =
    let (r, e) = attempt (λ z. (tt, z)) d in (elim r [ ok _ ↦ new | err _ ↦ old ], e)
