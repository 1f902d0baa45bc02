-- ===== src/Wallet/Store/Effects.antt =====
-- What each ledger operation does to the balances and to the journal, on every way it can end.
use giosk.Prelude.{
  ℕ, ◌≡◌, refl, ◌≢◌, ◌⊎◌, ◌∙◌, inl, inr, Bool, true, false, List, [], ◌∷◌, ◌++◌, Option, arith,
  String, ap, subst, leb_ℤ, Bool-cases, ◌<ℤ◌, ℤ, pos, ◌+ℤ◌, ◌-ℤ◌, ◌≤ℤ◌, int_laws,
}
use giosk.Wallet.Db.{
  Db, UserTx, GroupTx, TxType, Result, ok, err, db_error, attempt, UserWallet, GroupWallet,
}
use giosk.Wallet.Db.Faults.{at, done, attempt_elim, attempt-clear, bind_elim}
use giosk.Wallet.Store.{
  draw_group, taken, find_user_row, insert_user_row, user_balance, group_balance, ensure_user,
  ensure_group, add_user, add_group, apply_user_tx, apply_group_tx, draw_group_tx, user_wallet,
  add_member_consumed,
}
use giosk.Wallet.Store.Balance.{
  ensure_user-has, user_balance-ensure, user_balance-add_self, user_balance-add_ne,
  ensure_group-has, group_balance-ensure, group_balance-add_self, group_balance-add_ne,
}

-- The balances of a user in a group, and of a group.
abbrev pub bal : Db → ℕ → ℕ → ℤ
bal d u g = user_balance u g d.user_wallets

abbrev pub gbal : Db → ℕ → ℤ
gbal d g = group_balance g d.group_wallets

-- Every balance is as it was, but that of `u` in `g`, or that of the group `g`.
abbrev pub Elsewhere : ℕ → ℕ → Db → Db → Type 0
Elsewhere u g d e = (v h : ℕ) → ((u ≡ v) × (g ≡ h)) ⊎ (bal e v h ≡ bal d v h)

abbrev pub ElsewhereGroup : ℕ → Db → Db → Type 0
ElsewhereGroup g d e = (h : ℕ) → (g ≡ h) ⊎ (gbal e h ≡ gbal d h)

same_key : (u g v h : ℕ) → ((u ≡ v) × (g ≡ h)) ⊎ ((u ≢ v) ⊎ (g ≢ h))
same_key u g v h = ground arith

same_id : (g h : ℕ) → (g ≡ h) ⊎ (g ≢ h)
same_id g h = ground arith

add_after_ensure :
    (u g : ℕ) (a : ℤ) (ws : List UserWallet)
    → user_balance u g (add_user u g a (ensure_user u g ws)) ≡ user_balance u g ws +ℤ a
add_after_ensure u g a ws = cc (
  user_balance-add_self u g a (ensure_user u g ws) (ensure_user-has u g ws),
  user_balance-ensure u g u g ws,
)

add_elsewhere :
    (u g : ℕ) (a : ℤ) (ws : List UserWallet) (v h : ℕ)
    → ((u ≡ v) × (g ≡ h))
      ⊎ (user_balance v h (add_user u g a (ensure_user u g ws)) ≡ user_balance v h ws)
add_elsewhere u g a ws v h = elim (same_key u g v h) [
  | inl same ↦ inl same
  | inr ne ↦
      inr (user_balance-add_ne u g v h a (ensure_user u g ws) ne ∙ user_balance-ensure u g v h ws)
]

-- The new balance is reported and journalled; nothing but this wallet and its journal changes. An
-- error changes no table.
abbrev pub Credited : ℕ → ℕ → ℤ → Db → Result ℤ × Db → Type 0
Credited u g a d (ok b, e) =
    (b ≡ bal e u g)
    × (bal e u g ≡ bal d u g +ℤ a)
    × Elsewhere u g d e
    × ((tx : UserTx) × (e.user_txs ≡ d.user_txs ++ tx ∷ [])
        × (tx.user_id ≡ u)
        × (tx.group_id ≡ g)
        × (tx.amount ≡ a)
        × (tx.balance_after ≡ bal e u g))
    × (e.group_wallets ≡ d.group_wallets)
    × (e.organizations ≡ d.organizations)
Credited u g a d (err x, e) = (x ≡ db_error) × (e ≡ at d e.faults)

-- ApplyUserTx moves the balance by the amount and journals the balance that it leaves, or fails
-- without any effect.
pub apply_user_tx-Credited :
    (u g : ℕ) (kind : TxType) (a : ℤ) (desc ref : String) (actor : Option ℕ) (d : Db)
    → Credited u g a d (apply_user_tx u g kind a desc ref actor d)
unfolding apply_user_tx
apply_user_tx-Credited u g kind a desc ref actor d =
    attempt_elim (Credited u g a d) _ d (λ fs. (refl, refl))
      λ fs. (
        refl,
        add_after_ensure u g a d.user_wallets,
        add_elsewhere u g a d.user_wallets,
        (_, refl, refl, refl, refl, refl),
        refl,
        refl,
      )

group_add_after_ensure :
    (g : ℕ) (a : ℤ) (ws : List GroupWallet)
    → group_balance g (add_group g a (ensure_group g ws)) ≡ group_balance g ws +ℤ a
group_add_after_ensure g a ws = cc (
  group_balance-add_self g a (ensure_group g ws) (ensure_group-has g ws),
  group_balance-ensure g g ws,
)

group_add_elsewhere :
    (g : ℕ) (a : ℤ) (ws : List GroupWallet) (h : ℕ)
    → (g ≡ h) ⊎ (group_balance h (add_group g a (ensure_group g ws)) ≡ group_balance h ws)
group_add_elsewhere g a ws h = elim (same_id g h) [
  | inl same ↦ inl same
  | inr ne ↦ inr (group_balance-add_ne g h a (ensure_group g ws) ne ∙ group_balance-ensure g h ws)
]

abbrev pub GroupCredited : ℕ → ℤ → Db → Result ℤ × Db → Type 0
GroupCredited g a d (ok b, e) =
    (b ≡ gbal e g)
    × (gbal e g ≡ gbal d g +ℤ a)
    × ElsewhereGroup g d e
    × ((tx : GroupTx) × (e.group_txs ≡ d.group_txs ++ tx ∷ [])
        × (tx.group_id ≡ g)
        × (tx.amount ≡ a)
        × (tx.balance_after ≡ gbal e g))
    × (e.user_wallets ≡ d.user_wallets)
    × (e.organizations ≡ d.organizations)
GroupCredited g a d (err x, e) = (x ≡ db_error) × (e ≡ at d e.faults)

-- ApplyGroupTx does the same to the pool of a group.
pub apply_group_tx-GroupCredited :
    (g : ℕ) (kind : TxType) (a : ℤ) (actor : Option ℕ) (ref : String) (d : Db)
    → GroupCredited g a d (apply_group_tx g kind a actor ref d)
unfolding apply_group_tx
apply_group_tx-GroupCredited g kind a actor ref d =
    attempt_elim (GroupCredited g a d) _ d (λ fs. (refl, refl))
      λ fs. (
        refl,
        group_add_after_ensure g a d.group_wallets,
        group_add_elsewhere g a d.group_wallets,
        (_, refl, refl, refl, refl),
        refl,
        refl,
      )

abbrev pub Drawn : ℕ → ℤ → Db → Result Bool × Db → Type 0
Drawn g a d (ok true, e) =
    (a ≤ℤ gbal d g)
    × (gbal e g ≡ gbal d g -ℤ a)
    × ElsewhereGroup g d e
    × (e.user_wallets ≡ d.user_wallets)
    × (e.organizations ≡ d.organizations)
Drawn g a d (ok false, e) =
    (gbal d g <ℤ a)
    × ((h : ℕ) → gbal e h ≡ gbal d h)
    × (e.user_wallets ≡ d.user_wallets)
    × (e.organizations ≡ d.organizations)
Drawn g a d (err x, e) = (x ≡ db_error) × (e ≡ at d e.faults)

minus_eq : (a b c : ℤ) → a ≡ b +ℤ (pos 0 -ℤ c) → a ≡ b -ℤ c
minus_eq a b c h = rw h (omega int_laws)

draw_group-Drawn :
    (g : ℕ) (a : ℤ) (actor : Option ℕ) (d : Db) → Drawn g a d (done (draw_group g a actor d))
unfolding draw_group taken
draw_group-Drawn g a actor d =
    let same = group_balance-ensure g g d.group_wallets in
    elim (Bool-cases (leb_ℤ a (group_balance g (ensure_group g d.group_wallets)))) [
      | inl covered ↦ rw covered (
        ground (arith, same, covered),
        minus_eq _ _ _ (group_add_after_ensure g (pos 0 -ℤ a) d.group_wallets),
        group_add_elsewhere g (pos 0 -ℤ a) d.group_wallets,
        refl,
        refl,
      )
      | inr short ↦
          rw short
            (ground (arith, same, short), λ h. group_balance-ensure g h d.group_wallets, refl, refl)
    ]

-- DrawGroupTx takes the amount from a pool that covers it, and reports without taking anything
-- that a pool does not; it touches no other pool and no user's wallet.
pub draw_group_tx-Drawn :
    (g : ℕ) (a : ℤ) (actor : Option ℕ) (d : Db) → Drawn g a d (draw_group_tx g a actor d)
unfolding draw_group_tx
draw_group_tx-Drawn g a actor d =
    attempt_elim (Drawn g a d) (draw_group g a actor) d (λ fs. (refl, refl))
      λ fs. draw_group-Drawn g a actor (at d fs)

abbrev Ensured : ℕ → ℕ → Db → Result (Unit {0}) × Db → Type 0
Ensured u g d (ok _, e) = e.user_wallets ≡ ensure_user u g d.user_wallets
Ensured u g d (err x, e) = (x ≡ db_error) × (e ≡ at d e.faults)

-- The read of a wallet makes the row if need be, and changes no balance.
abbrev pub WalletRead : ℕ → ℕ → Db → Result UserWallet × Db → Type 0
WalletRead u g d (ok w, e) = (w.balance ≡ bal d u g) × ((v h : ℕ) → bal e v h ≡ bal d v h)
WalletRead u g d (err x, e) = (x ≡ db_error) × ((v h : ℕ) → bal e v h ≡ bal d v h)

bal-ensured :
    (u g v h : ℕ) (d e : Db)
    → e.user_wallets ≡ ensure_user u g d.user_wallets
    → bal e v h ≡ bal d v h
bal-ensured u g v h d e q = rw q (user_balance-ensure u g v h d.user_wallets)

find_user_row-balance : (u g : ℕ) (d : Db) → (find_user_row u g d).0.balance ≡ bal d u g
unfolding find_user_row user_balance
find_user_row-balance u g d = ground arith

pub user_wallet-WalletRead : (u g : ℕ) (d : Db) → WalletRead u g d (user_wallet u g d)
unfolding user_wallet find_user_row insert_user_row
user_wallet-WalletRead u g d =
    bind_elim (Ensured u g d) (WalletRead u g d) (attempt (insert_user_row u g))
      (λ _. attempt (find_user_row u g)) d
      (attempt_elim (Ensured u g d) (insert_user_row u g) d (λ fs. (refl, refl)) (λ fs. refl))
      (λ _ e q.
        attempt_elim (WalletRead u g d) (find_user_row u g) e
          (λ fs. (refl, λ v h. bal-ensured u g v h d e q))
          λ fs. (
            find_user_row-balance u g (at e fs) ∙ bal-ensured u g u g d e q,
            λ v h. bal-ensured u g v h d e q,
          ))
      (λ x e q. (q.0, λ v h. ap (λ (z : Db). bal z v h) q.1))

pub add_member_consumed-keeps :
    (u g : ℕ) (c : ℤ) (d : Db) → (add_member_consumed u g c d).1.user_wallets ≡ d.user_wallets
unfolding add_member_consumed
add_member_consumed-keeps u g c d =
    attempt_elim (λ r. r.1.user_wallets ≡ d.user_wallets) _ d (λ fs. refl) (λ fs. refl)

-- A draw that is covered and whose transaction succeeds, with the schedule that it leaves.
pub draw_group_tx-covered :
    (g : ℕ) (a : ℤ) (actor : Option ℕ) (d : Db) (fs : List Bool)
    → a ≤ℤ gbal d g
    → (e : Db) × (draw_group_tx g a actor (at d (false ∷ fs)) ≡ (ok true, e))
      × (e.faults ≡ fs)
      × Drawn g a d (ok true, e)
unfolding draw_group_tx attempt
draw_group_tx-covered g a actor d fs h =
    let covered : leb_ℤ a (group_balance g (ensure_group g d.group_wallets)) ≡ true =
      ground (arith, group_balance-ensure g g d.group_wallets) in
    let runs : draw_group g a actor (at d fs) ≡ (true, taken g a actor (at d fs)) =
      unfold draw_group in rw covered in
    let drawn : Drawn g a d (done (true, taken g a actor (at d fs))) =
      subst (λ z. Drawn g a d (done z)) runs (draw_group-Drawn g a actor (at d fs)) in
    (taken g a actor (at d fs), rw runs, unfold taken in refl, drawn)

pub apply_user_tx-fault :
    (u g : ℕ) (kind : TxType) (a : ℤ) (desc ref : String) (actor : Option ℕ) (d : Db)
    (fs : List Bool)
    → d.faults ≡ true ∷ fs
    → apply_user_tx u g kind a desc ref actor d ≡ (err db_error, at d fs)
unfolding apply_user_tx attempt
apply_user_tx-fault u g kind a desc ref actor d fs h = rw (h, attempt)

-- A credit where no statement fails.
pub apply_user_tx-clear :
    (u g : ℕ) (kind : TxType) (a : ℤ) (desc ref : String) (actor : Option ℕ) (d : Db)
    → d.faults ≡ []
    → (b : ℤ) × (e : Db) × (apply_user_tx u g kind a desc ref actor d ≡ (ok b, e))
      × (e.faults ≡ [])
      × (bal e u g ≡ bal d u g +ℤ a)
      × (e.organizations ≡ d.organizations)
      × (e.memberships ≡ d.memberships)
      × (e.groups ≡ d.groups)
unfolding apply_user_tx
apply_user_tx-clear u g kind a desc ref actor d h =
    (_, _, attempt-clear _ d h, refl, add_after_ensure u g a d.user_wallets, refl, refl, refl)
