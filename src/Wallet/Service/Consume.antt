-- ===== src/Wallet/Service/Consume.antt =====
-- What a consumption does to the wallets.
use giosk.Prelude.{
  ℕ, [], ◌≡◌, ◌≢◌, inl, inr, ◌∙◌, Bool, true, false, none, arith, ℤ, pos, ◌+ℤ◌, ◌-ℤ◌, ◌≤ℤ◌, ◌<ℤ◌,
  int_laws, leb_ℤ, Bool-cases, String, ltb_ℤ, ap,
}
use giosk.Wallet.Db.{Db, Result, ok, err, db_error, ignore, UserWallet, TxType, ◌>>◌, pure}
use giosk.Wallet.Db.Faults.{bind_elim}
use giosk.Wallet.Store.{user_wallet, add_member_consumed, apply_user_tx, user_balance}
use giosk.Wallet.Store.Effects.{
  bal, Elsewhere, Credited, apply_user_tx-Credited, WalletRead, user_wallet-WalletRead,
  add_member_consumed-keeps,
}
use giosk.Wallet.Store.Answers.{Answered}
use giosk.Wallet.Service.Answers.{consume-Answered}
use giosk.Wallet.Service.{Service, consume, consume_from, pay, resolve_group, label}

-- `true` is answered when the wallet paid, `false` when it could not; only the first changes a
-- balance, by the credits and in this wallet alone.
abbrev Moved : ℕ → ℕ → ℤ → Db → Result Bool × Db → Type 0
Moved u g c d (ok true, e) =
    (c ≤ℤ bal d u g) × (bal e u g ≡ bal d u g +ℤ (pos 0 -ℤ c)) × Elsewhere u g d e
Moved u g c d (ok false, e) = (bal d u g <ℤ c) × ((v h : ℕ) → bal e v h ≡ bal d v h)
Moved u g c d (err x, e) = (x ≡ db_error) × ((v h : ℕ) → bal e v h ≡ bal d v h)

-- The same, with an error only where there is a statement that can fail.
abbrev pub Consumed : ℕ → ℕ → ℤ → Db → Result Bool × Db → Type 0
Consumed u g c d (ok paid, e) = Moved u g c d (ok paid, e)
Consumed u g c d (err x, e) =
    (x ≡ db_error) × ((v h : ℕ) → bal e v h ≡ bal d v h) × ¬ (d.faults ≡ [])

module _ (u g : ℕ) (c : ℤ) (ref : String) (d : Db) where
  -- The journal entry and the showback counter, once the wallet was found to cover `c`.
  pay-Moved :
      (e : Db)
      → c ≤ℤ bal d u g
      → ((v h : ℕ) → bal e v h ≡ bal d v h)
      → Moved u g c d (pay u g c ref e)
  unfolding pay
  pay-Moved e covered same =
      bind_elim (Credited u g (pos 0 -ℤ c) e) (Moved u g c d)
        (apply_user_tx u g TxType.consume (pos 0 -ℤ c) (label ref) ref none)
        (λ _. ignore (add_member_consumed u g c) >> pure true) e
        (apply_user_tx-Credited u g TxType.consume (pos 0 -ℤ c) (label ref) ref none e)
        (λ b e' q.
          let kept = add_member_consumed-keeps u g c e' in
          (
            covered,
            ap (user_balance u g) kept ∙ q.1 ∙ ap (λ (z : ℤ). z +ℤ (pos 0 -ℤ c)) (same u g),
            λ v h. elim (q.2 v h) [
              | inl own ↦ inl own
              | inr other ↦ inr (ap (user_balance v h) kept ∙ other ∙ same v h)
            ],
          ))
        (λ x e' q. (q.0, λ v h. ap (λ (z : Db). bal z v h) q.1 ∙ same v h))

  consume_from-Moved :
      (w : UserWallet) (e : Db)
      → w.balance ≡ bal d u g
      → ((v h : ℕ) → bal e v h ≡ bal d v h)
      → Moved u g c d (consume_from u g c ref w e)
  unfolding consume_from
  consume_from-Moved w e found same = elim (Bool-cases (ltb_ℤ w.balance c)) [
    | inl short ↦ rw short (ground (arith, found, short), same)
    | inr covered ↦ rw covered (pay-Moved e (ground (arith, found, covered)) same)
  ]

consume-Moved :
    (s : Service) (u g : ℕ) (c : ℤ) (ref : String) (d : Db)
    → pos 0 <ℤ c
    → Moved u (resolve_group s d u g) c d (consume s u g c ref d)
unfolding consume
consume-Moved s u g c ref d positive =
    let h = resolve_group s d u g in
    let more : leb_ℤ c (pos 0) ≡ false = ground arith in
    rw more (
      bind_elim (WalletRead u h d) (Moved u h c d) (user_wallet u h) (consume_from u h c ref) d
        (user_wallet-WalletRead u h d) (λ w e q. consume_from-Moved u h c ref d w e q.0 q.1)
        (λ x e q. q))

-- A positive consumption is answered with true only where the wallet of the resolved group
-- covers it, and then it is taken from that wallet and no other balance changes; with false only
-- where the wallet does not cover it; and with an error only where the schedule of faults is not
-- empty, and then it is the error of the database; where the schedule is empty the answer is
-- true or false, so it is false exactly where the wallet does not cover it; with false or an
-- error no balance changes.
pub consume-Consumed :
    (s : Service) (u g : ℕ) (c : ℤ) (ref : String) (d : Db)
    → pos 0 <ℤ c
    → Consumed u (resolve_group s d u g) c d (consume s u g c ref d)
consume-Consumed s u g c ref d positive =
    reported (consume s u g c ref d) (consume-Moved s u g c ref d positive)
      (consume-Answered s u g c ref d)
  where
    reported :
        (r : Result Bool × Db)
        → Moved u (resolve_group s d u g) c d r
        → (d.faults ≡ [] → Answered r)
        → Consumed u (resolve_group s d u g) c d r
    reported (ok paid, e) moved answers = moved
    reported (err x, e) moved answers = (moved.0, moved.1, answers)

abbrev pub NoDebt : Db → Type 0
NoDebt d = (u g : ℕ) → pos 0 ≤ℤ bal d u g

Consumed-NoDebt :
    (u g : ℕ) (c : ℤ) (d : Db) (r : Result Bool × Db) → NoDebt d → Consumed u g c d r → NoDebt r.1
Consumed-NoDebt u g c d (ok true, e) h q v k = elim (q.2 v k) [
  | inl same ↦ rw (← same.0, ← same.1, q.1) (grind (int_laws, q.0))
  | inr other ↦ rw other (h v k)
]
Consumed-NoDebt u g c d (ok false, e) h q v k = rw (q.1 v k) (h v k)
Consumed-NoDebt u g c d (err x, e) h q v k = rw (q.1 v k) (h v k)

-- No consumption, whatever its amount and whatever statement fails, puts a wallet into debt.
pub consume-NoDebt :
    (s : Service) (u g : ℕ) (c : ℤ) (ref : String) (d : Db)
    → NoDebt d
    → NoDebt (consume s u g c ref d).1
unfolding consume
consume-NoDebt s u g c ref d h = elim (Bool-cases (leb_ℤ c (pos 0))) [
  | inl none_due ↦ rw none_due h
  | inr due ↦
      Consumed-NoDebt u (resolve_group s d u g) c d (consume s u g c ref d) h
        (consume-Consumed s u g c ref d (ground (arith, due)))
]

-- A group that is named is the one that pays.
pub resolve_group_named : (s : Service) (d : Db) (u g : ℕ) → g ≢ 0 → resolve_group s d u g ≡ g
unfolding resolve_group
resolve_group_named s d u g named = ground (arith, named)
