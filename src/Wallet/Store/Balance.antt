-- ===== src/Wallet/Store/Balance.antt =====
-- Balances under the statements of the ledger operations.
use giosk.Prelude.{
  ℕ, ◌≡◌, refl, ◌≢◌, ◌⊎◌, Bool, true, List, [], ◌∷◌, arith, ℤ, ◌+ℤ◌, first_where, is_some,
}
use giosk.Wallet.Db.{UserWallet, GroupWallet}
use giosk.Wallet.Store.{
  user_key, group_key, ensure_user, ensure_group, add_user, add_group, user_balance, group_balance,
}

pub has_user : ℕ → ℕ → List UserWallet → Bool
has_user u g ws = is_some (first_where (user_key u g) ws)

pub has_group : ℕ → List GroupWallet → Bool
has_group g ws = is_some (first_where (group_key g) ws)

pub ensure_user-has : (u g : ℕ) (ws : List UserWallet) → has_user u g (ensure_user u g ws) ≡ true
unfolding has_user ensure_user
ensure_user-has u g [] = ground arith
ensure_user-has u g (w ∷ ws) = ground (arith, ensure_user-has u g ws)

pub user_balance-ensure :
    (u g v h : ℕ) (ws : List UserWallet)
    → user_balance v h (ensure_user u g ws) ≡ user_balance v h ws
unfolding user_balance ensure_user
user_balance-ensure u g v h [] = ground arith
user_balance-ensure u g v h (w ∷ ws) = ground (arith, user_balance-ensure u g v h ws)

pub user_balance-add_self :
    (u g : ℕ) (a : ℤ) (ws : List UserWallet)
    → has_user u g ws ≡ true
    → user_balance u g (add_user u g a ws) ≡ user_balance u g ws +ℤ a
unfolding user_balance add_user has_user
user_balance-add_self u g a [] p = cc
user_balance-add_self u g a (w ∷ ws) p = ground (arith, user_balance-add_self u g a ws)

pub user_balance-add_ne :
    (u g v h : ℕ) (a : ℤ) (ws : List UserWallet)
    → (u ≢ v) ⊎ (g ≢ h)
    → user_balance v h (add_user u g a ws) ≡ user_balance v h ws
unfolding user_balance add_user
user_balance-add_ne u g v h a [] ne = refl
user_balance-add_ne u g v h a (w ∷ ws) ne = ground (arith, user_balance-add_ne u g v h a ws)

pub ensure_group-has : (g : ℕ) (ws : List GroupWallet) → has_group g (ensure_group g ws) ≡ true
unfolding has_group ensure_group
ensure_group-has g [] = ground arith
ensure_group-has g (w ∷ ws) = ground (arith, ensure_group-has g ws)

pub group_balance-ensure :
    (g h : ℕ) (ws : List GroupWallet) → group_balance h (ensure_group g ws) ≡ group_balance h ws
unfolding group_balance ensure_group
group_balance-ensure g h [] = ground arith
group_balance-ensure g h (w ∷ ws) = ground (arith, group_balance-ensure g h ws)

pub group_balance-add_self :
    (g : ℕ) (a : ℤ) (ws : List GroupWallet)
    → has_group g ws ≡ true
    → group_balance g (add_group g a ws) ≡ group_balance g ws +ℤ a
unfolding group_balance add_group has_group
group_balance-add_self g a [] p = cc
group_balance-add_self g a (w ∷ ws) p = ground (arith, group_balance-add_self g a ws)

pub group_balance-add_ne :
    (g h : ℕ) (a : ℤ) (ws : List GroupWallet)
    → g ≢ h
    → group_balance h (add_group g a ws) ≡ group_balance h ws
unfolding group_balance add_group
group_balance-add_ne g h a [] ne = refl
group_balance-add_ne g h a (w ∷ ws) ne = ground (arith, group_balance-add_ne g h a ws)
