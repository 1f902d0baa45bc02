-- ===== src/Wallet/Refill/Twice.antt =====
-- A second run of RefillDue at the same instant: refill.go is called by every manager on its own
-- timer, and a repeated run must not pay twice.
use giosk.Prelude.{
  true, ℕ, ◌+◌, Bool, false, Option, none, some, List, [], ◌∷◌, ◌++◌, ℤ, update_where, ◌≡◌, refl,
  ap, arith, All,
}
use giosk.Wallet.Db.{UserWallet, GroupWallet, Organization, UserTx, Db}
use giosk.Wallet.Refill.{
  above_with, refill_with, PlatformRefill, due, Visit, nothing, visit_of, or_else, cycle_after,
  org_eligible, org_interval, org_due, org_refilled, org_visit, org_visits, pass_orgs, count_where,
  org_id_of, Above, org_above, group_eligible, group_interval, group_due, group_refilled,
  group_visits, pass_groups, user_eligible, user_due, user_refilled, pass_users, user_journal,
  plat_cycle_at, above_of, refill,
}

-- An instant that has just been stored is not due.
due-now : (iv : ℤ) (now : ℕ) → due (some now) iv now ≡ false
unfolding due
due-now iv now = ground arith

module _ {A : Type 0} (q q' : A → Bool) (f : A → A) where
  updated-settles :
      ((x : A) → q' x ≡ q x)
      → ((x : A) → q (f x) ≡ false)
      → (xs : List A) → All (λ x. q' x ≡ false) (update_where q f xs)
  updated-settles same gone [] = tt
  updated-settles same gone (x ∷ xs) =
      (ground (arith, same x, same (f x), gone x), updated-settles same gone xs)

module _ {A : Type 0} (q : A → Bool) where
  update_where-settled :
      (f : A → A) (xs : List A) → All (λ x. q x ≡ false) xs → update_where q f xs ≡ xs
  update_where-settled f [] h = refl
  update_where-settled f (x ∷ xs) (h, hs) = ground (arith, h, update_where-settled f xs hs)

  count_where-settled : (xs : List A) → All (λ x. q x ≡ false) xs → count_where q xs ≡ 0
  unfolding count_where
  count_where-settled [] h = refl
  count_where-settled (x ∷ xs) (h, hs) = ground (arith, h, count_where-settled xs hs)

journal-settled :
    (a : Above) (gs : List (ℕ × Visit)) (ws : List UserWallet)
    → All (λ w. user_due a w ≡ false) ws
    → user_journal a gs (λ u g. true) ws ≡ []
unfolding user_journal
journal-settled a gs [] h = refl
journal-settled a gs (w ∷ ws) (h, hs) = ground (arith, h, journal-settled a gs ws hs)

append-nil : {A : Type 0} (xs ys : List A) → ys ≡ [] → xs ++ ys ≡ xs
append-nil [] ys h = h
append-nil (x ∷ xs) ys h = ap (λ t. x ∷ t) (append-nil xs ys h)

cycle_settled :
    (now : ℕ) (iv : ℤ) (k : Option ℕ)
    → cycle_after
        (due (cycle_after (due k iv now) now k) iv now)
        now
        (cycle_after (due k iv now) now k)
      ≡ cycle_after (due k iv now) now k
cycle_settled now iv k = ground (arith, due-now iv now)

module _ (p : PlatformRefill) (c : Option ℕ) (now : ℕ) where
  org_due-refilled : (o : Organization) → org_due p now (org_refilled p c now o) ≡ false
  unfolding org_due org_refilled
  org_due-refilled o = ground (arith, due-now (org_interval p (org_refilled p c now o)) now)

  -- A refill keeps an organisation's effective interval.
  eff-refilled :
      (os : List Organization) (g : ℕ)
      → (visit_of g (org_visits p now (pass_orgs p c now (λ o. true) os))).eff
        ≡ (visit_of g (org_visits p now os)).eff
  unfolding org_visits pass_orgs org_visit org_refilled org_interval org_eligible
  eff-refilled [] g = refl
  eff-refilled (o ∷ os) g = ground (arith, eff-refilled os g)

-- The run's own values, and those of the second run.
module _ (a b : Above) (groups : b.groups ≡ a.groups) (plat : b.plat ≡ a.plat) (now : b.now ≡ a.now)
    (eff : (g : ℕ) → (org_above b g).eff ≡ (org_above a g).eff) where
  group_due-again : (w : GroupWallet) → group_due b w ≡ group_due a w
  unfolding group_due group_eligible group_interval
  group_due-again w = grind (arith, eff w.group_id, groups, plat, now)

  user_due-again : (w : UserWallet) → user_due b w ≡ user_due a w
  unfolding user_due user_eligible
  user_due-again w = grind (arith, groups, plat, now)

module _ (a : Above) where
  group_due-refilled : (w : GroupWallet) → group_due a (group_refilled a w) ≡ false
  unfolding group_due group_refilled
  group_due-refilled w = ground (arith, due-now (group_interval a (group_refilled a w)) a.now)

  user_due-refilled :
      (gs : List (ℕ × Visit)) (w : UserWallet) → user_due a (user_refilled a gs w) ≡ false
  unfolding user_due user_refilled
  user_due-refilled gs w =
      ground (arith, due-now (or_else w.refill_interval_days a.plat.interval_days) a.now)

module _ (p : PlatformRefill) (now : ℕ) (d : Db) where
  abbrev first : Db
  unfolding refill
  first = (refill p now d).1

  abbrev a : Above
  unfolding above_of above_with
  a = above_of p now d

  abbrev b : Above
  unfolding above_of above_with
  b = above_of p now first

  eff_through :
      (o : Option ℕ)
      → (elim o as (λ _. Visit) [ none ↦ nothing | some i ↦ visit_of i b.orgs ]).eff
        ≡ (elim o as (λ _. Visit) [ none ↦ nothing | some i ↦ visit_of i a.orgs ]).eff
  unfolding a b first above_of above_with
  eff_through none = refl
  eff_through (some i) = eff-refilled p a.plat_cycle now d.organizations i

  eff-again : (g : ℕ) → (org_above b g).eff ≡ (org_above a g).eff
  unfolding a b first above_of above_with
  eff-again g = eff_through (org_id_of d.groups g)

  orgs_settled : All (λ o. org_due p now o ≡ false) first.organizations
  unfolding pass_orgs first above_of above_with a
  orgs_settled =
      updated-settles (org_due p now) (org_due p now) (org_refilled p a.plat_cycle now) (λ o. refl)
        (org_due-refilled p a.plat_cycle now) d.organizations

  groups_settled : All (λ w. group_due b w ≡ false) first.group_wallets
  unfolding pass_groups a b first
  groups_settled =
      updated-settles (group_due a) (group_due b) (group_refilled a)
        (group_due-again a b refl refl refl eff-again) (group_due-refilled a) d.group_wallets

  users_settled : All (λ w. user_due b w ≡ false) first.user_wallets
  unfolding pass_users a b first
  users_settled =
      updated-settles (user_due a) (user_due b) (user_refilled a (group_visits a d.group_wallets))
        (user_due-again a b refl refl refl eff-again)
        (user_due-refilled a (group_visits a d.group_wallets)) d.user_wallets

  -- The tables after the second run, of what each pass leaves.
  abbrev again :
      ℕ
      → ℕ
      → ℕ
      → Option ℕ
      → List Organization
      → List GroupWallet
      → List UserWallet
      → List UserTx
      → ℕ × Db
  again n m k c os gs us ts = (
    n + m + k,
    record first {
      platform_cycle_started_at = c;
      organizations = os;
      group_wallets = gs;
      user_wallets = us;
      user_txs = first.user_txs ++ ts;
    },
  )

  again-same :
      {n m k : ℕ} {c : Option ℕ} {os : List Organization} {gs : List GroupWallet}
      {us : List UserWallet} {ts : List UserTx}
      → n ≡ 0
      → m ≡ 0
      → k ≡ 0
      → c ≡ first.platform_cycle_started_at
      → os ≡ first.organizations
      → gs ≡ first.group_wallets
      → us ≡ first.user_wallets
      → ts ≡ []
      → again n m k c os gs us ts ≡ (0, first)
  again-same {ts = ts} e1 e2 e3 e4 e5 e6 e7 e8 =
      rw (e1, e2, e3, e4, e5, e6, e7)
        (ap (λ (x : List UserTx). (0, record first { user_txs = x }))
          (append-nil first.user_txs ts e8))

  -- Where no statement of the transaction fails: a second run of the refill at the same instant
  -- refills no pool and changes no table.
  pub refill-twice : refill p now (refill p now d).1 ≡ (0, (refill p now d).1)
  unfolding refill refill_with pass_orgs pass_groups pass_users plat_cycle_at above_of above_with a
      b first
  refill-twice =
      again-same (count_where-settled (org_due p now) first.organizations orgs_settled)
        (count_where-settled (group_due b) first.group_wallets groups_settled)
        (count_where-settled (user_due b) first.user_wallets users_settled)
        (cycle_settled now p.interval_days d.platform_cycle_started_at)
        (update_where-settled (org_due p now) (org_refilled p b.plat_cycle now) first.organizations
          orgs_settled)
        (update_where-settled (group_due b) (group_refilled b) first.group_wallets groups_settled)
        (update_where-settled (user_due b) (user_refilled b (group_visits b first.group_wallets))
          first.user_wallets users_settled)
        (journal-settled b (group_visits b first.group_wallets) first.user_wallets users_settled)
