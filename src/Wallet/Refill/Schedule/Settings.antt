-- ===== src/Wallet/Refill/Schedule/Settings.antt =====
-- What the refill settings, the immediate refill and the time shown of the next refill come to.
use giosk.Prelude.{
  ℕ, Bool, true, false, some, List, [], ◌∷◌, ◌++◌, ◌&&◌, ap, ◌∙◌, sym, subst, ℤ, pos, ◌+ℤ◌, ◌≤ℤ◌,
  ◌<ℤ◌, leb_ℤ, if◌then◌else◌, update_where, ◌≡◌, ◌⊎◌, inl, inr, refl, arith, All, Bool-cases,
}
use giosk.Wallet.Db.{
  UserWallet, UserTx, Db, Result, ok, err, db_error, no_recurring, attempt, ignore, pure, ◌>>◌,
}
use giosk.Wallet.Db.Faults.{attempt_elim, bind_elim}
use giosk.Wallet.Store.{user_key, insert_user_row}
use giosk.Wallet.Service.{Service, plat_default}
use giosk.Wallet.Refill.{
  above_with, after_days, due, user_eligible, user_due, above_of, or_else, PlatformRefill,
}
use giosk.Wallet.Refill.Schedule.{
  RefillSpec, user_refill_cap, clamped, write_user_refill, set_user_refill, found_user,
  set_user_balance, journal_now, refill_user_row, refill_now_user, next_refill, user_next_refill,
}

-- The interval is the one asked for, or the cap where that is shorter.
abbrev pub Within : ℤ → ℤ → ℤ → Type 0
Within cap asked iv =
    ((iv ≡ asked) × ((cap ≤ℤ pos 0) ⊎ (iv ≤ℤ cap))) ⊎ ((iv ≡ cap) × (cap <ℤ asked))

-- A member's row, if it is the one that was set, holds the setting within the cap.
abbrev pub IsSetTo : ℤ → RefillSpec → ℕ → ℕ → UserWallet → Type 0
IsSetTo cap spec u g w =
    (user_key u g w ≡ false)
    ⊎ ((w.recurring_credit ≡ spec.recurring)
        × ((w.carryover ≡ spec.carryover) × Within cap spec.interval_days w.refill_interval_days))

abbrev pub SettingStored : ℤ → RefillSpec → ℕ → ℕ → Result (Unit {0}) × Db → Type 0
SettingStored cap spec u g (ok _, e) = All (IsSetTo cap spec u g) e.user_wallets
SettingStored cap spec u g (err x, e) = x ≡ db_error

clamped-Within : (cap iv : ℤ) → Within cap iv (clamped cap iv)
unfolding clamped
clamped-Within cap iv = ground arith

written-IsSetTo :
    (cap : ℤ) (spec : RefillSpec) (u g : ℕ) (iv : ℤ)
    → Within cap spec.interval_days iv
    → (ws : List UserWallet)
    → All (IsSetTo cap spec u g) (
        update_where
          (user_key u g)
          (λ w. record w {
            recurring_credit = spec.recurring;
            refill_interval_days = iv;
            carryover = spec.carryover;
          })
          ws)
written-IsSetTo cap spec u g iv h [] = tt
written-IsSetTo cap spec u g iv h (w ∷ ws) = (
  elim (Bool-cases (user_key u g w)) [
    | inl hit ↦ rw hit (inr (refl, (refl, h)))
    | inr miss ↦ rw miss (inl miss)
  ],
  written-IsSetTo cap spec u g iv h ws,
)

-- SetUserRefill, when it succeeds, leaves the member's wallet with the amount, the carry-over and
-- the interval asked for, the interval cut to the group's cap where there is one that is shorter;
-- it fails only with the error of a statement.
pub set_user_refill-SettingStored :
    (s : Service) (u g : ℕ) (spec : RefillSpec) (d : Db)
    → SettingStored (user_refill_cap d g (plat_default s)) spec u g (set_user_refill s u g spec d)
unfolding set_user_refill write_user_refill
set_user_refill-SettingStored s u g spec d =
    let cap = user_refill_cap d g (plat_default s) in
    let iv = clamped cap spec.interval_days in
    attempt_elim (SettingStored cap spec u g)
      (write_user_refill u g spec.recurring iv spec.carryover)
      (ignore (attempt (insert_user_row u g)) d).1 (λ fs. refl)
      (λ fs. written-IsSetTo cap spec u g iv (clamped-Within cap spec.interval_days) _)

-- The balance after an immediate refill.
abbrev pub refilled_balance : UserWallet → ℤ
refilled_balance w = if w.carryover then w.balance +ℤ w.recurring_credit else w.recurring_credit

-- A member's own row is at its new balance and cycle; the other rows are as they were.
abbrev pub Rows : ℕ → ℕ → ℕ → ℤ → List UserWallet → List UserWallet → Type 0
Rows u g now b [] [] = Unit
Rows u g now b [] (_ ∷ _) = ⊥
Rows u g now b (_ ∷ _) [] = ⊥
Rows u g now b (x ∷ xs) (y ∷ ys) =
    (((user_key u g x ≡ false) × (y ≡ x))
      ⊎ ((user_key u g x ≡ true) × ((y.balance ≡ b) × (y.cycle_started_at ≡ some now))))
    × Rows u g now b xs ys

-- What an immediate refill of the row `w` comes to.
abbrev pub RefilledNow : ℕ → ℕ → ℕ → UserWallet → Db → Result ℤ × Db → Type 0
RefilledNow now u g w d (ok r, e) =
    (r ≡ w.recurring_credit)
    × ((pos 0 <ℤ r)
        × (Rows u g now (refilled_balance w) d.user_wallets e.user_wallets
            × ((tx : UserTx) × ((e.user_txs ≡ d.user_txs ++ tx ∷ [])
                  × ((tx.amount ≡ r) × (tx.balance_after ≡ refilled_balance w))))))
RefilledNow now u g w d (err x, e) =
    ((x ≡ no_recurring) × ((e ≡ d) × (w.recurring_credit ≤ℤ pos 0)))
    ⊎ ((x ≡ db_error)
        × ((e.user_txs ≡ d.user_txs)
            × ((e.user_wallets ≡ d.user_wallets)
                ⊎ Rows u g now (refilled_balance w) d.user_wallets e.user_wallets)))

updated-Rows :
    (u g now : ℕ) (b : ℤ) (ws : List UserWallet)
    → Rows u g now b ws (
        update_where (user_key u g) (λ w. record w { balance = b; cycle_started_at = some now }) ws)
updated-Rows u g now b [] = tt
updated-Rows u g now b (w ∷ ws) = (
  elim (Bool-cases (user_key u g w)) [
    | inl hit ↦ rw hit (inr (refl, (refl, refl)))
    | inr miss ↦ rw miss (inl (refl, refl))
  ],
  updated-Rows u g now b ws,
)

abbrev BalanceSet : ℕ → ℕ → ℕ → ℤ → Db → Result (Unit {0}) × Db → Type 0
BalanceSet now u g b d (ok _, e) =
    (e.user_txs ≡ d.user_txs) × Rows u g now b d.user_wallets e.user_wallets
BalanceSet now u g b d (err x, e) =
    (x ≡ db_error) × ((e.user_txs ≡ d.user_txs) × (e.user_wallets ≡ d.user_wallets))

abbrev Journalled : ℤ → ℤ → Db → Result (Unit {0}) × Db → Type 0
Journalled r b d (ok _, e) =
    (e.user_wallets ≡ d.user_wallets)
    × ((tx : UserTx) × ((e.user_txs ≡ d.user_txs ++ tx ∷ [])
          × ((tx.amount ≡ r) × (tx.balance_after ≡ b))))
Journalled r b d (err x, e) =
    (x ≡ db_error) × ((e.user_txs ≡ d.user_txs) × (e.user_wallets ≡ d.user_wallets))

module _ (now u g : ℕ) (w : UserWallet) (d : Db) (recurring : pos 0 <ℤ w.recurring_credit) where
  journalled :
      (e : Db)
      → e.user_txs ≡ d.user_txs
      → Rows u g now (refilled_balance w) d.user_wallets e.user_wallets
      → RefilledNow now u g w d (
          (attempt (journal_now u g w.recurring_credit (refilled_balance w))
              >> pure w.recurring_credit)
            e)
  unfolding journal_now
  journalled e same rows =
      bind_elim (Journalled w.recurring_credit (refilled_balance w) e) (RefilledNow now u g w d)
        (attempt (journal_now u g w.recurring_credit (refilled_balance w)))
        (λ _. pure w.recurring_credit) e
        (attempt_elim (Journalled w.recurring_credit (refilled_balance w) e)
          (journal_now u g w.recurring_credit (refilled_balance w)) e (λ fs. (refl, (refl, refl)))
          (λ fs. (refl, (_, (refl, (refl, refl))))))
        (λ _ f q. (
          refl,
          (
            recurring,
            (
              subst (λ z. Rows u g now (refilled_balance w) d.user_wallets z) (sym q.0) rows,
              (q.1.0, (q.1.1.0 ∙ ap (λ z. z ++ q.1.0 ∷ []) same, q.1.1.1)),
            ),
          ),
        ))
        (λ x f q. inr (
          q.0,
          (
            q.1.0 ∙ same,
            inr (subst (λ z. Rows u g now (refilled_balance w) d.user_wallets z) (sym q.1.1) rows),
          ),
        ))

  paid : RefilledNow now u g w d (
      (attempt (set_user_balance u g (refilled_balance w) now)
          >> (attempt (journal_now u g w.recurring_credit (refilled_balance w))
              >> pure w.recurring_credit))
        d)
  unfolding set_user_balance
  paid =
      bind_elim (BalanceSet now u g (refilled_balance w) d) (RefilledNow now u g w d)
        (attempt (set_user_balance u g (refilled_balance w) now))
        (λ _.
          attempt (journal_now u g w.recurring_credit (refilled_balance w))
          >> pure w.recurring_credit)
        d
        (attempt_elim (BalanceSet now u g (refilled_balance w) d)
          (set_user_balance u g (refilled_balance w) now) d (λ fs. (refl, (refl, refl)))
          (λ fs. (refl, updated-Rows u g now (refilled_balance w) d.user_wallets)))
        (λ _ e q. journalled e q.0 q.1) (λ x e q. inr (q.0, (q.1.0, inl q.1.1)))

-- An immediate refill of a member: the recurring credit on top of what is left where the wallet
-- carries over and alone where it does not, with the cycle starting now and a journal entry; an
-- error without a recurring credit and no effect; or an error of the database with no journal
-- entry, which leaves the row as it was or already refilled.
pub refill_now_user-RefilledNow :
    (now u g : ℕ) (d : Db) → RefilledNow now u g (found_user u g d) d (refill_now_user now u g d)
unfolding refill_now_user refill_user_row set_user_balance journal_now
refill_now_user-RefilledNow now u g d =
    elim (Bool-cases (leb_ℤ (found_user u g d).recurring_credit (pos 0))) [
      | inl none_set ↦ rw none_set (inl (refl, (refl, ground (arith, none_set))))
      | inr recurring ↦ rw recurring (paid now u g (found_user u g d) d (ground (arith, recurring)))
    ]

due-early :
    (c : ℕ) (cap iv : ℤ) → pos 0 <ℤ cap → cap <ℤ iv → due (some c) iv (after_days c cap) ≡ false
unfolding due
due-early c cap iv some_cap shorter = ground arith

or_else-default : (own default : ℤ) → own ≤ℤ pos 0 → or_else own default ≡ default
or_else-default own default h = ground (arith, h)

and-right : (b : Bool) {c : Bool} → c ≡ false → (b && c) ≡ false
and-right true h = h
and-right false h = refl

-- A member's wallet without an interval of its own that has been refilled at `c`.
module _ (s : Service) (p : PlatformRefill) (now : ℕ) (d : Db) (w : UserWallet) (c : ℕ)
    (refilled : w.cycle_started_at ≡ some c) (recurring : pos 0 <ℤ w.recurring_credit)
    (own : w.refill_interval_days ≤ℤ pos 0)
    (cap : pos 0 <ℤ user_refill_cap d w.group_id (plat_default s))
    (shorter : user_refill_cap d w.group_id (plat_default s) <ℤ p.interval_days) where
  -- Where a group or its organisation has a shorter interval than the platform, a member's wallet
  -- without an interval of its own is shown a next refill after the shorter interval, and a
  -- refill that runs at the time shown does not find it due.
  pub user_next_refill-early :
      (user_next_refill s now d w
        ≡ some (after_days c (user_refill_cap d w.group_id (plat_default s))))
      × (user_due (above_of p (after_days c (user_refill_cap d w.group_id (plat_default s))) d) w
          ≡ false)
  unfolding user_next_refill next_refill user_due above_of above_with
  user_next_refill-early =
      let at_shown = after_days c (user_refill_cap d w.group_id (plat_default s)) in
      (
        grind (arith, refilled, recurring, own, cap),
        and-right (user_eligible _ w) (
            ap (λ k. due k (or_else w.refill_interval_days p.interval_days) at_shown) refilled
            ∙ ap (λ iv. due (some c) iv at_shown)
                (or_else-default w.refill_interval_days p.interval_days own)
            ∙ due-early c (user_refill_cap d w.group_id (plat_default s)) p.interval_days cap
                shorter),
      )
