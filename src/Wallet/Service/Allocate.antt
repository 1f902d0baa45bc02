-- ===== src/Wallet/Service/Allocate.antt =====
-- What an allocation from a group's pool to a member does to the balances.
use giosk.Prelude.{
  ℕ, ◌≡◌, refl, ◌⊎◌, inl, inr, ◌∙◌, Bool, true, false, List, ◌∷◌, Option, arith, ℤ, pos, ◌+ℤ◌, ◌-ℤ◌,
  ◌≤ℤ◌, ◌<ℤ◌, leb_ℤ, String, ap, sym, subst, ltb, ◌<◌,
}
use giosk.Wallet.Db.{Db, Result, ok, err, db_error, insufficient_group_pool, TxType, ◌>>=◌, pure}
use giosk.Wallet.Db.Faults.{at, bind_elim, bind_ok, bind_err}
use giosk.Wallet.Store.{draw_group_tx, apply_user_tx, group_balance, user_balance}
use giosk.Wallet.Store.Effects.{
  bal, gbal, Elsewhere, ElsewhereGroup, Credited, apply_user_tx-Credited, Drawn,
  draw_group_tx-Drawn, draw_group_tx-covered, apply_user_tx-fault,
}
use giosk.Wallet.Service.{Service, allocate_user, allocate_in, fund_user, draw_first, require}

-- Every balance of users and groups is as it was.
abbrev pub Same : Db → Db → Type 0
Same d e = ((v h : ℕ) → bal e v h ≡ bal d v h) × ((h : ℕ) → gbal e h ≡ gbal d h)

-- The pool of `g` is down by `a`, and no other pool has changed.
abbrev pub PoolPaid : ℕ → ℤ → Db → Db → Type 0
PoolPaid g a d e = (gbal e g ≡ gbal d g -ℤ a) × ElsewhereGroup g d e

-- A successful allocation moves `a` from the pool of `g` to the wallet of `u` in it. A failed one
-- has changed no balance, or, where the second transaction failed, has taken `a` from the pool.
abbrev pub Allocated : ℕ → ℕ → ℤ → Db → Result (Unit {0}) × Db → Type 0
Allocated u g a d (ok _, e) =
    (a ≤ℤ gbal d g) × PoolPaid g a d e × (bal e u g ≡ bal d u g +ℤ a) × Elsewhere u g d e
Allocated u g a d (err x, e) =
    Same d e
    ⊎ ((x ≡ db_error) × (a ≤ℤ gbal d g) × PoolPaid g a d e × ((v h : ℕ) → bal e v h ≡ bal d v h))

abbrev Funded : ℕ → ℤ → Db → Result (Unit {0}) × Db → Type 0
Funded g a d (ok _, e) = (a ≤ℤ gbal d g) × PoolPaid g a d e × ((v h : ℕ) → bal e v h ≡ bal d v h)
Funded g a d (err x, e) = Same d e

at-Same : (d e : Db) → e ≡ at d e.faults → Same d e
at-Same d e q = (λ v h. ap (λ (z : Db). bal z v h) q, λ h. ap (λ (z : Db). gbal z h) q)

module _ (s : Service) (u g : ℕ) (a : ℤ) (actor : Option ℕ) (d : Db) where
  require-Funded :
      (b : Bool) (e : Db)
      → Drawn g a d (ok b, e)
      → Funded g a d (require b insufficient_group_pool e)
  unfolding require
  require-Funded true e q = (q.0, (q.1, q.2), λ v h. ap (user_balance v h) q.3)
  require-Funded false e q = (λ v h. ap (user_balance v h) q.2, q.1)

  fund_user-Funded : s.pool ≡ true → Funded g a d (fund_user s u g a false actor d)
  unfolding fund_user draw_first
  fund_user-Funded on =
      rw (on, draw_first)
        (bind_elim (Drawn g a d) (Funded g a d) (draw_group_tx g a actor)
          (λ drawn. require drawn insufficient_group_pool) d (draw_group_tx-Drawn g a actor d)
          require-Funded (λ x e q. at-Same d e q.1))

  allocate_in-Allocated :
      (desc : String) → s.pool ≡ true → Allocated u g a d (allocate_in s u g a false desc actor d)
  unfolding allocate_in
  allocate_in-Allocated desc on =
      bind_elim (Funded g a d) (Allocated u g a d) (fund_user s u g a false actor)
        (λ _. apply_user_tx u g TxType.topup a desc "" actor >>= λ _. pure tt) d
        (fund_user-Funded on)
        (λ _ e paid.
          bind_elim (Credited u g a e) (Allocated u g a d)
            (apply_user_tx u g TxType.topup a desc "" actor) (λ _. pure tt) e
            (apply_user_tx-Credited u g TxType.topup a desc "" actor e)
            (λ b f q.
              let same = λ (h : ℕ). ap (group_balance h) q.4 in
              (
                paid.0,
                (
                  same g ∙ paid.1.0,
                  λ h. elim (paid.1.1 h) [ inl own ↦ inl own | inr other ↦ inr (same h ∙ other) ],
                ),
                q.1 ∙ ap (λ (z : ℤ). z +ℤ a) (paid.2 u g),
                λ v h. elim (q.2 v h) [ inl own ↦ inl own | inr other ↦ inr (other ∙ paid.2 v h) ],
              ))
            (λ x f q.
              let (users, groups) = at-Same e f q.1 in
              inr (
                q.0,
                paid.0,
                (
                  groups g ∙ paid.1.0,
                  λ h. elim (paid.1.1 h) [ inl own ↦ inl own | inr other ↦ inr (groups h ∙ other) ],
                ),
                λ v h. users v h ∙ paid.2 v h,
              )))
        (λ x e same. inl same)

-- An allocation by a group's manager, in a named group, moves the amount from the group's pool to
-- the member, or is refused without changing a balance; but where the journal entry of the member
-- fails after the draw, the pool has paid and nobody has received.
pub allocate_user-Allocated :
    (s : Service) (u g : ℕ) (a : ℤ) (desc : String) (actor : Option ℕ) (d : Db)
    → s.pool ≡ true
    → 0 < g
    → pos 0 <ℤ a
    → Allocated u g a d (allocate_user s u g a false desc actor d)
unfolding allocate_user
allocate_user-Allocated s u g a desc actor d on named positive =
    let due : leb_ℤ a (pos 0) ≡ false = ground arith in
    let given : ltb 0 g ≡ true = ground arith in
    rw (due, given, given) (allocate_in-Allocated s u g a actor d desc on)

abbrev pub Lost : ℕ → ℕ → ℤ → Db → Result (Unit {0}) × Db → Type 0
Lost u g a d (r, e) =
    (r ≡ err db_error) × (gbal e g ≡ gbal d g -ℤ a) × ((v h : ℕ) → bal e v h ≡ bal d v h)

allocate_in-loses :
    (s : Service) (u g : ℕ) (a : ℤ) (desc : String) (actor : Option ℕ) (d : Db) (fs : List Bool)
    → s.pool ≡ true
    → a ≤ℤ gbal d g
    → Lost u g a d (allocate_in s u g a false desc actor (at d (false ∷ true ∷ fs)))
unfolding allocate_in fund_user draw_first require
allocate_in-loses s u g a desc actor d fs on covered =
    let (e, runs, next, drawn) = draw_group_tx-covered g a actor d (true ∷ fs) covered in
    let start = at d (false ∷ true ∷ fs) in
    let funded : fund_user s u g a false actor start ≡ (ok tt, e) =
      rw (on, draw_first)
        (bind_ok (draw_group_tx g a actor) (λ drawn. require drawn insufficient_group_pool) start
          runs) in
    let rest = λ (_ : Unit {0}). apply_user_tx u g TxType.topup a desc "" actor >>= λ _. pure tt in
    let ends : allocate_in s u g a false desc actor start ≡ (err db_error, at e fs) =
      bind_ok (fund_user s u g a false actor) rest start funded
      ∙ bind_err (apply_user_tx u g TxType.topup a desc "" actor) (λ _. pure tt) e
          (apply_user_tx-fault u g TxType.topup a desc "" actor e fs next) in
    subst (Lost u g a d) (sym ends) (refl, drawn.1, λ v h. ap (user_balance v h) drawn.3)

-- The loss does happen, to every pool that covers the amount: if the draw succeeds and the next
-- transaction fails, the error is reported, the pool has paid, and no wallet has received.
pub allocate_user-loses :
    (s : Service) (u g : ℕ) (a : ℤ) (desc : String) (actor : Option ℕ) (d : Db) (fs : List Bool)
    → s.pool ≡ true
    → 0 < g
    → pos 0 <ℤ a
    → a ≤ℤ gbal d g
    → Lost u g a d (allocate_user s u g a false desc actor (at d (false ∷ true ∷ fs)))
unfolding allocate_user
allocate_user-loses s u g a desc actor d fs on named positive covered =
    let due : leb_ℤ a (pos 0) ≡ false = ground arith in
    let given : ltb 0 g ≡ true = ground arith in
    rw (due, given, given) (allocate_in-loses s u g a desc actor d fs on covered)
