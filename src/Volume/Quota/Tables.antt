-- ===== src/Volume/Quota/Tables.antt =====
-- A table of volumes in which no team is above its quota, and what keeps it so.
use giosk.Prelude.{
  ℕ, suc, ◌≡◌, refl, ap, subst, pos_part, neg_part, ◌⊎◌, inl, inr, Bool, true, false, Option, none,
  some, List, [], ◌∷◌, ◌++◌, ℤ, pos, ◌+ℤ◌, ◌≤ℤ◌, int_laws, arith, Bool-cases, All, All-snoc,
  All-map, ◌<◌, ◌==◌, if◌then◌else◌, first_where, select_where, update_where,
}
use giosk.Volume.Store.{Volume, is_id, is_value, of_team, sum_gib}
use giosk.Policy.Resolver.{Resolver, resolve, resolve_group_by_id}
use giosk.Volume.Quota.{Service, quota_for, quota_for_team, positive_or}
use giosk.Volume.Quota.Sums.{
  gib, Distinct, Sizes, Old, sum_gib-insert, Distinct-insert, sum_gib-update_same, All-update,
  Distinct-update, sum_gib-update_found, gib_nonneg, sum_gib-remove, All-remove, Distinct-remove,
}

-- What a user has in a team is within the limit of the team.
abbrev pub TeamWithin : Service → List Volume → Type 0
TeamWithin svc vs =
    (u g : ℕ) → (g == 0) ≡ false → sum_gib (of_team u g) vs ≤ℤ quota_for_team svc u g

abbrev pub Inv : Service → List Volume → ℕ → Type 0
Inv svc vs next = Sizes vs × Old next vs × Distinct vs × TeamWithin svc vs

-- There is room for `row`.
abbrev pub Room : Service → Volume → List Volume → Type 0
Room svc row vs =
    (u g : ℕ)
    → (g == 0) ≡ false
    → sum_gib (of_team u g) vs +ℤ gib (of_team u g) row ≤ℤ quota_for_team svc u g

or_default : (q g : ℤ) → pos 0 ≤ℤ q → pos 0 ≤ℤ positive_or q g
or_default q g h = ground (arith, h)

-- The empty table, where the default limit is not negative.
pub empty-Inv : (svc : Service) (next : ℕ) → pos 0 ≤ℤ svc.total_gib → Inv svc [] next
unfolding quota_for_team quota_for
empty-Inv svc next h = (tt, tt, tt, λ u g some_team. rw some_team (by_limits u g svc.limits))
  where
    by_user :
        (u : ℕ) (o : Option Resolver)
        → pos 0 ≤ℤ elim o as (λ _. ℤ) [
          | none ↦ svc.total_gib
          | some r ↦ positive_or svc.total_gib (resolve r u).max_volume_gib
        ]
    by_user u none = h
    by_user u (some r) = or_default svc.total_gib ((resolve r u).max_volume_gib) h

    by_limits :
        (u g : ℕ) (o : Option Resolver)
        → pos 0 ≤ℤ elim o as (λ _. ℤ) [
          | none ↦ quota_for svc u
          | some r ↦ positive_or (quota_for svc u) (resolve_group_by_id r g).max_volume_gib
        ]
    by_limits u g none = by_user u svc.limits
    by_limits u g (some r) =
        or_default (quota_for svc u) ((resolve_group_by_id r g).max_volume_gib)
          (by_user u svc.limits)

older : (n : ℕ) (vs : List Volume) → Old n vs → Old (suc n) vs
older n vs h = All-map vs (λ v k. omega (arith, k)) h

abbrev pub moved : ℕ → Volume → Volume
moved g v = record v { group_id = if g == 0 then none else some g }

All-found :
    (P : Volume → Type 0) (p : Volume → Bool) (vs : List Volume) (v : Volume)
    → All P vs
    → first_where p vs ≡ some v
    → P v
All-found P p [] v hs found = ground (arith, found)
All-found P p (w ∷ vs) v (h, hs) found = elim (Bool-cases (p w)) [
  | inl hit ↦ let same : w ≡ v = ground (arith, hit, found) in subst P same h
  | inr miss ↦ All-found P p vs v hs (ground (arith, miss, found))
]

settled : (s' s x y z q : ℤ) → s' +ℤ x ≡ s +ℤ y → pos 0 ≤ℤ x → y ≡ z → s +ℤ z ≤ℤ q → s' ≤ℤ q
settled s' s x y z q h k e l =
    omega (int_laws, ap pos_part h, ap neg_part h, k, ap pos_part e, ap neg_part e, l)

unmoved : (s q : ℤ) → s ≤ℤ q → s +ℤ pos 0 ≤ℤ q
unmoved s q h = omega (int_laws, h)

module _ (svc : Service) (vs : List Volume) (next : ℕ) (inv : Inv svc vs next) where
  pub insert-Inv :
      (row : Volume)
      → pos 0 ≤ℤ row.size_gib
      → Room svc row vs
      → Inv svc (vs ++ record row { id = next } ∷ []) (suc next)
  insert-Inv row positive room = (
    All-snoc (λ (v : Volume). pos 0 ≤ℤ v.size_gib) vs (record row { id = next }) inv.0 positive,
    All-snoc (λ (v : Volume). v.id < suc next) vs (record row { id = next }) (older next vs inv.1)
        (omega arith),
    Distinct-insert vs (record row { id = next }) inv.2 inv.1,
    λ u g h. rw (sum_gib-insert (of_team u g) vs (record row { id = next })) (room u g h),
  )

  -- A statement that changes no id, size, owner and team.
  pub update-Inv :
      (q : Volume → Bool) (f : Volume → Volume)
      → ((v : Volume)
          → ((f v).id ≡ v.id)
            × ((f v).size_gib ≡ v.size_gib)
            × ((f v).owner_user_id ≡ v.owner_user_id)
            × ((f v).group_id ≡ v.group_id))
      → Inv svc (update_where q f vs) next
  update-Inv q f same = (
    All-update (λ (v : Volume). pos 0 ≤ℤ v.size_gib) q f vs (λ v k. rw ((same v).1) k) inv.0,
    All-update (λ (v : Volume). v.id < next) q f vs (λ v k. rw ((same v).0) k) inv.1,
    Distinct-update q f vs (λ v. (same v).0) inv.2,
    λ u g h.
        rw
          (sum_gib-update_same (of_team u g) q f vs
            (λ v. rw ((same v).1, (same v).2, (same v).3) refl))
          (inv.3 u g h),
  )

  pub remove-Inv : (q : Volume → Bool) → Inv svc (select_where q vs) next
  remove-Inv q = (
    All-remove (λ (v : Volume). pos 0 ≤ℤ v.size_gib) q vs inv.0,
    All-remove (λ (v : Volume). v.id < next) q vs inv.1,
    Distinct-remove q vs inv.2,
    λ u g h.
        lower (sum_gib (of_team u g) (select_where q vs)) (sum_gib (of_team u g) vs)
          (quota_for_team svc u g) (sum_gib-remove (of_team u g) q vs inv.0) (inv.3 u g h),
  )
    where
      lower : (a b c : ℤ) → a ≤ℤ b → b ≤ℤ c → a ≤ℤ c
      lower a b c h k = omega (arith, h, k)

  -- The volume `i` of `u` moves to the team `g`.
  pub move-Inv :
      (u i g : ℕ) (v : Volume)
      → first_where (is_id i) vs ≡ some v
      → is_value u v.owner_user_id ≡ true
      → ((g == 0) ≡ true) ⊎ (sum_gib (of_team u g) vs +ℤ v.size_gib ≤ℤ quota_for_team svc u g)
      → Inv svc (update_where (is_id i) (moved g) vs) next
  move-Inv u i g v found own room = (
    All-update (λ (v : Volume). pos 0 ≤ℤ v.size_gib) (is_id i) (moved g) vs (λ v k. k) inv.0,
    All-update (λ (v : Volume). v.id < next) (is_id i) (moved g) vs (λ v k. k) inv.1,
    Distinct-update (is_id i) (moved g) vs (λ v. refl) inv.2,
    λ u' g' h. elim (Bool-cases (of_team u' g' (moved g v))) [
      | inr other ↦
          settled (sum_gib (of_team u' g') after) (sum_gib (of_team u' g') vs)
            (gib (of_team u' g') v) (gib (of_team u' g') (moved g v)) (pos 0)
            (quota_for_team svc u' g') (changed u' g') (gib_nonneg (of_team u' g') v positive)
            (rw other refl)
            (unmoved (sum_gib (of_team u' g') vs) (quota_for_team svc u' g') (inv.3 u' g' h))
      | inl here ↦
          let same_user : u' ≡ u = ground (arith, here, own) in
          let same_team : g' ≡ g = ground (arith, here) in
          settled (sum_gib (of_team u' g') after) (sum_gib (of_team u' g') vs)
            (gib (of_team u' g') v) (gib (of_team u' g') (moved g v)) v.size_gib
            (quota_for_team svc u' g') (changed u' g') (gib_nonneg (of_team u' g') v positive)
            (rw here refl)
            (elim room [
              | inl no_team ↦ ground (arith, no_team, same_team, h)
              | inr enough ↦ rw (same_user, same_team) enough
            ])
    ],
  )
    where
      after : List Volume
      after = update_where (is_id i) (moved g) vs

      positive : pos 0 ≤ℤ v.size_gib
      positive = All-found (λ (v : Volume). pos 0 ≤ℤ v.size_gib) (is_id i) vs v inv.0 found

      changed :
          (u' g' : ℕ)
          → sum_gib (of_team u' g') after +ℤ gib (of_team u' g') v
            ≡ sum_gib (of_team u' g') vs +ℤ gib (of_team u' g') (moved g v)
      changed u' g' = sum_gib-update_found (of_team u' g') i (moved g) vs v inv.2 found
