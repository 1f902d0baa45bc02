-- ===== src/Wallet/Service.antt =====
-- backend/internal/wallet/service.go: consumption, grants and allocation.
pub mod Consume
pub mod Answers
pub mod Allocate
pub mod Credit
pub mod Passes
use Prim.Native.String.{◌++◌}
use text.Mathlib.Text.{starts_with}
use giosk.Prelude.{
  ℕ, Bool, true, false, ◌&&◌, not, Option, none, some, String, ℤ, pos, ◌-ℤ◌, leb_ℤ, ltb_ℤ, ltb,
  if◌then◌else◌,
}
use giosk.Wallet.Db.{
  UserWallet, TxType, Db, Error, insufficient_pool, insufficient_group_pool, no_group, Result, ok,
  err, Action, ◌>>=◌, ◌>>◌, pure, raise, gets, ignore,
}
use giosk.Wallet.Store.{
  user_wallet, apply_user_tx, apply_group_tx, draw_group_tx, add_member_consumed, user_balance,
}
use giosk.Wallet.Pool.{group_of_user, draw_for_user, draw_for_group, add_for_user, add_for_group}

-- `pool` says whether a Pool was injected; `plat_interval` is what platInterval returns, if it was.
-- `finds_group` says whether the query of GroupOfUser works: its error is dropped and reads as no group.
pub record Service : Type 0 where
  pub pool : Bool
  pub finds_group : Bool
  pub plat_interval : Option ℤ

pub plat_default : Service → ℤ
plat_default s = elim s.plat_interval [
  | none ↦ pos 30
  | some v ↦ if ltb_ℤ (pos 0) v then v else pos 30
]

pub resolve_group : Service → Db → ℕ → ℕ → ℕ
resolve_group s d u g =
    if ltb 0 g
    then g
    else if s.pool && s.finds_group
    then elim (group_of_user d u) [ none ↦ 0 | some h ↦ h ]
    else 0

require : Bool → Error → Action (Unit {0})
require c e = if c then pure tt else raise e

-- The draw on the organisation's pool before a credit.
draw_first : Bool → Action Bool → Error → Action (Unit {0})
unfolding require
draw_first false m e = pure tt
draw_first true m e = do drawn ← m; require drawn e

pub credit_user : Service → ℕ → ℕ → ℤ → String → Option ℕ → Action ℤ
unfolding draw_first resolve_group
credit_user s u g amount desc actor = do
  draw_first (s.pool && ltb_ℤ (pos 0) amount) (draw_for_user u amount) insufficient_pool
  h ← gets (λ d. resolve_group s d u g)
  apply_user_tx u h TxType.topup amount desc "" actor

pub credit_group : Service → ℕ → ℤ → Option ℕ → Action ℤ
unfolding draw_first
credit_group s g amount actor = do
  draw_first (s.pool && ltb_ℤ (pos 0) amount) (draw_for_group g amount) insufficient_pool
  apply_group_tx g TxType.topup amount actor ""

-- The pool side of AllocateGroup.
fund_group : Service → ℕ → ℤ → Bool → Action (Unit {0})
unfolding draw_first
fund_group s g amount super =
    if super
    then (if s.pool then add_for_group g amount else pure tt)
    else draw_first s.pool (draw_for_group g amount) insufficient_pool

pub allocate_group : Service → ℕ → ℤ → Bool → Option ℕ → Action (Unit {0})
unfolding fund_group
allocate_group s g amount super actor =
    if leb_ℤ amount (pos 0)
    then pure tt
    else do fund_group s g amount super; apply_group_tx g TxType.topup amount actor ""; pure tt

-- The administrator's grant to a user: the pools above receive the amount as well.
fund_above : ℕ → ℕ → ℤ → Option ℕ → Action (Unit {0})
fund_above u g amount actor = do
  add_for_user u amount
  apply_group_tx g TxType.topup amount actor ""
  pure tt

-- The pool side of AllocateUser.
fund_user : Service → ℕ → ℕ → ℤ → Bool → Option ℕ → Action (Unit {0})
unfolding draw_first fund_above
fund_user s u g amount super actor =
    if super
    then (if s.pool then fund_above u g amount actor else pure tt)
    else draw_first s.pool (draw_group_tx g amount actor) insufficient_group_pool

allocate_in : Service → ℕ → ℕ → ℤ → Bool → String → Option ℕ → Action (Unit {0})
allocate_in s u g amount super desc actor = do
  fund_user s u g amount super actor
  apply_user_tx u g TxType.topup amount desc "" actor
  pure tt

pub allocate_user : Service → ℕ → ℕ → ℤ → Bool → String → Option ℕ → Action (Unit {0})
unfolding resolve_group require
allocate_user s u g amount super desc actor = if leb_ℤ amount (pos 0) then pure tt else do
  h ← gets (λ d. resolve_group s d u g)
  require (ltb 0 h) no_group
  allocate_in s u h amount super desc actor

-- What the journal says of a consumption.
pub label : String → String
label ref = if starts_with ref "vol-" then "스토리지(" ++ ref ++ ")" else "GPU 사용(" ++ ref ++ ")"

-- The journal entry, and the showback counter, whose error is dropped.
pay : ℕ → ℕ → ℤ → String → Action Bool
pay u g credits ref = do
  apply_user_tx u g TxType.consume (pos 0 -ℤ credits) (label ref) ref none
  ignore (add_member_consumed u g credits)
  pure true

consume_from : ℕ → ℕ → ℤ → String → UserWallet → Action Bool
consume_from u g credits ref w = if ltb_ℤ w.balance credits then pure false else pay u g credits ref

pub consume : Service → ℕ → ℕ → ℤ → String → Action Bool
consume s u g credits ref = if leb_ℤ credits (pos 0) then pure true else do
  h ← gets (λ d. resolve_group s d u g)
  w ← user_wallet u h
  consume_from u h credits ref w

-- Balance: 0 for a wallet that cannot be read.
pub balance : Service → ℕ → ℕ → Db → ℤ × Db
balance s u g d =
    let (r, d') = user_wallet u (resolve_group s d u g) d in
    (elim r [ ok w ↦ w.balance | err e ↦ pos 0 ], d')
