-- ===== src/Wallet/Refill/Carry.antt =====
-- What a refill does with what was left: the cascade of resets from the platform and from a group
-- down to the wallets below, and the carry-over where nothing resets.
use giosk.Prelude.{
  ℕ, Bool, true, false, Option, none, some, List, [], ◌∷◌, ◌+ℤ◌, ◌≤◌, ◌==◌, update_where,
  first_where, ◌≡◌, ◌≢◌, refl, ap, ◌∙◌, arith, All, ◌⊎◌, inl, inr,
}
use giosk.Wallet.Db.{UserWallet, GroupWallet, Organization, Db}
use giosk.Wallet.Refill.{
  above_with, refill_with, PlatformRefill, since_of, boundary_crossed, due, Visit, nothing,
  visit_of, org_due, org_wipe, org_refilled, org_visit, org_visits, pass_orgs, org_id_of, Above,
  org_above, group_eligible, group_due, group_wipe, group_refilled, group_visit, group_visits,
  pass_groups, user_due, user_wipe, user_refilled, pass_users, plat_cycle_at, above_of, refill,
}

-- The rows of a table before and after, one by one.
abbrev pub Each : {A : Type 0} → (A → A → Type 0) → List A → List A → Type 0
Each R [] [] = Unit
Each R [] (_ ∷ _) = ⊥
Each R (_ ∷ _) [] = ⊥
Each R (x ∷ xs) (y ∷ ys) = R x y × Each R xs ys

module _ {A : Type 0} (R : A → A → Type 0) (q : A → Bool) (f : A → A) where
  update_where-Each :
      ((x : A) → q x ≡ true → R x (f x))
      → ((x : A) → R x x)
      → (xs : List A) → Each R xs (update_where q f xs)
  update_where-Each hit miss [] = tt
  update_where-Each hit miss (x ∷ xs) =
      (ground (arith, hit x, miss x), update_where-Each hit miss xs)

-- A wallet is left alone, or was last refilled at `now` or later, or holds just its own recurring
-- credit, what was left having been reset.
abbrev pub UserReset : ℕ → UserWallet → UserWallet → Type 0
UserReset now w w' =
    (w' ≡ w) ⊎ ((now ≤ since_of w.cycle_started_at) ⊎ (w'.balance ≡ w.recurring_credit))

abbrev pub GroupReset : ℕ → GroupWallet → GroupWallet → Type 0
GroupReset now w w' =
    (w' ≡ w) ⊎ ((now ≤ since_of w.cycle_started_at) ⊎ (w'.balance ≡ w.recurring_credit))

abbrev pub OrgReset : ℕ → Organization → Organization → Type 0
OrgReset now o o' =
    (o' ≡ o)
    ⊎ ((now ≤ since_of o.recurring_cycle_started_at) ⊎ (o'.credit_pool ≡ o.recurring_credit))

-- A wallet is left alone, or does not carry over, or gets its recurring credit on top.
abbrev pub UserKept : UserWallet → UserWallet → Type 0
UserKept w w' = (w' ≡ w) ⊎ ((w.carryover ≡ false) ⊎ (w'.balance ≡ w.balance +ℤ w.recurring_credit))

-- A member's wallet of group `g`, as UserReset has it.
abbrev pub MemberReset : ℕ → ℕ → UserWallet → UserWallet → Type 0
MemberReset g now w w' = (w.group_id ≢ g) ⊎ UserReset now w w'

module _ (p : PlatformRefill) (now : ℕ) (d : Db) where
  module _ (no_carry : p.carryover ≡ false)
      (turned : due d.platform_cycle_started_at p.interval_days now ≡ true) where
    -- Where no statement of the transaction fails: where the platform does not carry over and
    -- its own cycle turns over in a run, every organisation, group and member wallet that the
    -- run refills and that was last refilled before now is reset to its recurring credit, its
    -- own carry-over notwithstanding.
    pub refill-Reset :
        Each (OrgReset now) d.organizations (refill p now d).1.organizations
        × (Each (GroupReset now) d.group_wallets (refill p now d).1.group_wallets
            × Each (UserReset now) d.user_wallets (refill p now d).1.user_wallets)
    unfolding refill refill_with pass_orgs pass_groups pass_users above_of above_with plat_cycle_at
        boundary_crossed org_wipe org_refilled group_wipe group_refilled user_wipe user_refilled
    refill-Reset = (
      update_where-Each (OrgReset now) (org_due p now)
          (org_refilled p (above_of p now d).plat_cycle now)
          (λ o h. ground (arith, no_carry, turned)) (λ o. inl refl) d.organizations,
      (
        update_where-Each (GroupReset now) (group_due (above_of p now d))
            (group_refilled (above_of p now d)) (λ w h. ground (arith, no_carry, turned))
            (λ w. inl refl) d.group_wallets,
        update_where-Each (UserReset now) (user_due (above_of p now d))
            (user_refilled (above_of p now d) (group_visits (above_of p now d) d.group_wallets))
            (λ w h. ground (arith, no_carry, turned)) (λ w. inl refl) d.user_wallets,
      ),
    )

abbrev Carries : Visit → Type 0
Carries v = (v.carryover ≡ true) ⊎ (v.cycle ≡ none)

module _ (p : PlatformRefill) (now : ℕ) where
  org_visits-Carries :
      (os : List Organization)
      → All (λ (o : Organization). o.carryover ≡ true) os
      → (g : ℕ) → Carries (visit_of g (org_visits p now os))
  unfolding org_visits org_visit
  org_visits-Carries [] h g = inr refl
  org_visits-Carries (o ∷ os) (h, hs) g = ground (arith, h, org_visits-Carries os hs g)

module _ (a : Above) where
  group_visits-Carries :
      (ws : List GroupWallet)
      → All (λ (w : GroupWallet). w.carryover ≡ true) ws
      → (g : ℕ) → Carries (visit_of g (group_visits a ws))
  unfolding group_visits group_visit
  group_visits-Carries [] h g = inr refl
  group_visits-Carries (w ∷ ws) (h, hs) g = ground (arith, h, group_visits-Carries ws hs g)

  -- The visit of the group whose row is found and is due.
  visit_of-found :
      (g : ℕ) (gw : GroupWallet) (ws : List GroupWallet)
      → first_where (λ w. w.group_id == g) ws ≡ some gw
      → group_eligible a gw ≡ true
      → visit_of g (group_visits a ws) ≡ group_visit a gw
  unfolding group_visits
  visit_of-found g gw [] h e = ground arith
  visit_of-found g gw (w ∷ ws) h e = ground (arith, visit_of-found g gw ws, e, h)

  -- A wallet whose group has reset in this run.
  turned-Reset :
      (gs : List (ℕ × Visit)) (w : UserWallet)
      → (visit_of w.group_id gs).carryover ≡ false
      → (visit_of w.group_id gs).cycle ≡ some a.now
      → UserReset a.now w (user_refilled a gs w)
  unfolding user_refilled user_wipe boundary_crossed
  turned-Reset gs w no_carry cycle = ground (arith, no_carry, cycle)

  -- A wallet whose three levels carry over is refilled on top of what was left.
  refilled-Kept :
      (gs : List (ℕ × Visit)) (w : UserWallet)
      → Carries (record {
        cycle = a.plat_cycle;
        carryover = a.plat.carryover;
        eff = a.plat.interval_days;
      })
      → Carries (org_above a w.group_id)
      → Carries (visit_of w.group_id gs)
      → UserKept w (user_refilled a gs w)
  unfolding user_refilled user_wipe boundary_crossed
  refilled-Kept gs w plat org group = ground arith

module _ (p : PlatformRefill) (now : ℕ) (d : Db) where
  abbrev a : Above
  unfolding above_of above_with
  a = above_of p now d

  abbrev gs : List (ℕ × Visit)
  gs = group_visits a d.group_wallets

  module _ (plat : p.carryover ≡ true)
      (orgs : All (λ (o : Organization). o.carryover ≡ true) d.organizations) where
    org_above-Carries :
        (o : Option ℕ)
        → Carries (elim o as (λ _. Visit) [ none ↦ nothing | some i ↦ visit_of i a.orgs ])
    unfolding a above_of above_with
    org_above-Carries none = inr refl
    org_above-Carries (some i) = org_visits-Carries p now d.organizations orgs i

    -- Where the platform, every organisation and every group's wallet carry over, a member's wallet
    -- that is refilled and carries over keeps what was left: its recurring credit comes on top.
    pub refill-Kept :
        All (λ (w : GroupWallet). w.carryover ≡ true) d.group_wallets
        → Each UserKept d.user_wallets (refill p now d).1.user_wallets
    unfolding refill refill_with pass_users a above_of above_with
    refill-Kept groups =
        update_where-Each UserKept (user_due a) (user_refilled a gs)
          (λ w h.
            refilled-Kept a gs w (inl plat) (org_above-Carries (org_id_of d.groups w.group_id))
              (group_visits-Carries a d.group_wallets groups w.group_id))
          (λ w. inl refl) d.user_wallets

  module _ (g : ℕ) (gw : GroupWallet)
      (found : first_where (λ w. w.group_id == g) d.group_wallets ≡ some gw)
      (no_carry : gw.carryover ≡ false) (is_due : group_due (above_of p now d) gw ≡ true) where
    due-eligible : group_eligible a gw ≡ true
    unfolding group_due a
    due-eligible = ground (arith, is_due)

    member-Reset : (w : UserWallet) → MemberReset g now w (user_refilled a gs w)
    unfolding group_visit a above_of above_with
    member-Reset w = elim (decide w.group_id) [
      | inl same ↦ inr (
          turned-Reset a gs w (ap (λ v. v.carryover) (same_visit w same) ∙ no_carry)
            (ap (λ v. v.cycle) (same_visit w same) ∙ ground (arith, is_due)))
      | inr other ↦ inl other
    ]
      where
        decide : (h : ℕ) → (h ≡ g) ⊎ (h ≢ g)
        decide h = ground arith

        same_visit : (w : UserWallet) → w.group_id ≡ g → visit_of w.group_id gs ≡ group_visit a gw
        same_visit w same =
            ap (λ h. visit_of h gs) same ∙ visit_of-found a g gw d.group_wallets found due-eligible

    -- Where no statement of the transaction fails: where a group's wallet does not carry over
    -- and is due in a run, every wallet of its members that the run refills and that was last
    -- refilled before now is reset to its own recurring credit.
    pub refill-MemberReset : Each (MemberReset g now) d.user_wallets (refill p now d).1.user_wallets
    unfolding refill refill_with pass_users a
    refill-MemberReset =
        update_where-Each (MemberReset g now) (user_due a) (user_refilled a gs)
          (λ w h. member-Reset w) (λ w. inr (inl refl)) d.user_wallets
