-- ===== src/Wallet/Service/Credit.antt =====
-- A credit to a user where the pool of the user's organisation is attached, as in the program.
use giosk.Prelude.{
  ℕ, ◌≡◌, refl, subst, ap, ltb, if◌then◌else◌, ◌∙◌, Bool, true, false, ◌&&◌, Option, none, some, [],
  String, ℤ, pos, ◌+ℤ◌, ◌-ℤ◌, ltb_ℤ, arith,
}
use giosk.Wallet.Db.{Db, Error, insufficient_pool, ok, Action, TxType, ◌>>=◌, gets}
use giosk.Wallet.Db.Faults.{bind_ok}
use giosk.Wallet.Store.{apply_user_tx}
use giosk.Wallet.Store.Effects.{bal, apply_user_tx-clear}
use giosk.Wallet.Pool.{org_of_user, covers_pool, add_pool_rows, draw_for_user}
use giosk.Wallet.Pool.Effects.{draw_for_user-clear, group_of_user-same}
use giosk.Wallet.Service.{Service, require, draw_first, resolve_group, credit_user}

draw_first-drawn :
    (c : Bool) (m : Action Bool) (x : Error) (d e : Db)
    → c ≡ true
    → m d ≡ (ok true, e)
    → draw_first c m x d ≡ (ok tt, e)
unfolding draw_first require
draw_first-drawn true m x d e h runs = bind_ok m (λ b. require b x) d runs
draw_first-drawn false m x d e h runs = ground (arith, h)

-- The wallet that a user's credit goes to depends on the memberships alone.
pub resolve_group-same :
    (s : Service) (u g : ℕ) (d e : Db)
    → d.memberships ≡ e.memberships
    → resolve_group s d u g ≡ resolve_group s e u g
unfolding resolve_group
resolve_group-same s u g d e h =
    ap
      (λ (o : Option ℕ).
        if ltb 0 g
        then g
        else if s.pool && s.finds_group
        then elim o [ none ↦ 0 | some k ↦ k ]
        else 0)
      (group_of_user-same u d e h)

-- Where no statement fails and the pool covers the amount, the wallet of the user's group is credited
-- and the pool pays.
pub credit_user-pool :
    (s : Service) (u o : ℕ) (a : ℤ) (desc : String) (actor : Option ℕ) (d : Db)
    → s.pool ≡ true
    → ltb_ℤ (pos 0) a ≡ true
    → d.faults ≡ []
    → org_of_user d u ≡ some o
    → covers_pool o a d.organizations ≡ true
    → (b : ℤ) × (e : Db) × (credit_user s u 0 a desc actor d ≡ (ok b, e))
      × (e.faults ≡ [])
      × (bal e u (resolve_group s d u 0) ≡ bal d u (resolve_group s d u 0) +ℤ a)
      × (e.organizations ≡ add_pool_rows o (pos 0 -ℤ a) d.organizations)
      × (e.memberships ≡ d.memberships)
      × (e.groups ≡ d.groups)
unfolding credit_user
credit_user-pool s u o a desc actor d pooled positive clear org covers =
    let drawn : Db = record d {
      organizations = add_pool_rows o (pos 0 -ℤ a) d.organizations;
      faults = [];
    } in
    let h = resolve_group s drawn u 0 in
    let (b, e, runs, after, gained, orgs, members, groups) =
      apply_user_tx-clear u h TxType.topup a desc "" actor drawn refl in
    (
      b,
      e,
      bind_ok (draw_first (s.pool && ltb_ℤ (pos 0) a) (draw_for_user u a) insufficient_pool)
            (λ _.
              gets (λ d. resolve_group s d u 0)
              >>= (λ h. apply_user_tx u h TxType.topup a desc "" actor))
            d
            (draw_first-drawn (s.pool && ltb_ℤ (pos 0) a) (draw_for_user u a) insufficient_pool d
              drawn (ground (arith, pooled, positive))
              (draw_for_user-clear u o a d clear org covers))
          ∙ runs,
      after,
      subst (λ z. bal e u z ≡ bal d u z +ℤ a) (resolve_group-same s u 0 drawn d refl) gained,
      orgs,
      members,
      groups,
    )
