-- ===== src/Volume/Quota/Within.antt =====
-- No operation of a user brings a team above its quota.
use giosk.Prelude.{
  ℕ, suc, ◌≡◌, refl, sym, ap, subst, inl, inr, Bool, true, false, Option, none, some, List, [], ◌∷◌,
  ◌++◌, ℤ, pos, ◌+ℤ◌, ◌≤ℤ◌, int_laws, arith, Bool-cases, ltb_ℤ, ◌==◌, if◌then◌else◌, update_where,
  String,
}
use giosk.Wallet.Db.{Db}
use giosk.Wallet.Service.{Service as Charger, balance}
use giosk.Session.Billing.{quotient}
use giosk.Volume.Store.{
  Volume, Store, Result, ok, err, Action, ◌>>=◌, ◌>>◌, pure, is_id, of_owner, of_team, sum_gib,
  insert, set_bound, update, quota_exceeded, insufficient_credit, raise, bound, failed,
}
use giosk.Volume.Store.Statements.{
  at, statement_elim, then_elim, statement-Readable, Readable, then_ok,
}
use giosk.Wallet.Db.Faults.{rest}
use giosk.Volume.Quota.{
  Service, Provisioner, CreateReq, quota_for_team, counted, check_credit, provision, new_volume,
  create, bind_claim, pvc_of, monthly_cost, with_wallets, user_ns,
}
use giosk.Volume.Quota.Sums.{gib}
use giosk.Volume.Quota.Tables.{TeamWithin, Inv, Room, insert-Inv, update-Inv}

plus_zero : (a q : ℤ) → a ≤ℤ q → a +ℤ pos 0 ≤ℤ q
plus_zero a q h = omega (int_laws, h)

module _ (svc : Service) where
  abbrev pub Kept : {A : Type 0} → Result A × Store → Type 0
  Kept r = Inv svc r.1.volumes r.1.next_id

  update-Kept :
      (i : ℕ) (f : Volume → Volume) (s : Store)
      → Inv svc s.volumes s.next_id
      → ((v : Volume)
          → ((f v).id ≡ v.id)
            × ((f v).size_gib ≡ v.size_gib)
            × ((f v).owner_user_id ≡ v.owner_user_id)
            × ((f v).group_id ≡ v.group_id))
      → Kept (update i f s)
  update-Kept i f s inv same =
      statement_elim Kept (λ s. (tt, record s { volumes = update_where (is_id i) f s.volumes })) s
        (λ fs. inv) (λ fs. update-Inv svc s.volumes s.next_id inv (is_id i) f same)

  bind_claim-Kept :
      (made : Bool) (ns : String) (v : Volume) (s : Store)
      → Inv svc s.volumes s.next_id
      → Kept (bind_claim made ns v s)
  bind_claim-Kept made ns v s inv =
      let status = if made then bound else failed in
      then_elim Kept Kept (set_bound v.id (pvc_of v) ns status)
        (λ _. pure (record v { pvc_name = pvc_of v; pvc_namespace = ns; status = status })) s
        (update-Kept v.id
          (λ v'. record v' { pvc_name = pvc_of v; pvc_namespace = ns; status = status }) s inv
          (λ w. (refl, refl, refl, refl)))
        (λ a t q. q) (λ x t q. q)

  -- The credit check touches wallets only.
  check_credit-keeps :
      (P : Store → Type 0)
      → ((s : Store) (d : Db) → P s → P (record s { wallets = d }))
      → (u g : ℕ) (size : ℤ) (s : Store) → P s
      → P ((check_credit svc u g size s).1)
  unfolding check_credit
  check_credit-keeps P quiet u g size s p = by_charger svc.charger
    where
      refused :
          (c : Bool) (t : Store)
          → P t
          → P (((if c then raise insufficient_credit else pure (tt {0})) t).1)
      refused true t q = q
      refused false t q = q

      by_charger :
          (o : Option Charger)
          → P (
              ((elim o as (λ _. Action (Unit {0})) [
                | none ↦ pure tt
                | some w ↦
                    if ltb_ℤ (pos 0) svc.price
                    then with_wallets (balance w u g) >>= (λ b.
                      if ltb_ℤ b (quotient (monthly_cost svc size) 30)
                      then raise insufficient_credit
                      else pure tt)
                    else pure tt
              ])
                s).1)
      by_charger none = p
      by_charger (some w) = elim (Bool-cases (ltb_ℤ (pos 0) svc.price)) [
        | inr free ↦ rw free p
        | inl priced ↦ rw priced (
            refused (ltb_ℤ ((balance w u g s.wallets).0) (quotient (monthly_cost svc size) 30))
              (record s { wallets = (balance w u g s.wallets).1 })
              (quiet s ((balance w u g s.wallets).1) p))
      ]

  module _ (prov : Provisioner) (now u g : ℕ) (req : CreateReq)
      (positive : pos 0 ≤ℤ req.size_gib) where
    abbrev row : Volume
    row = new_volume now u g req

    -- Create once the quota was looked at.
    abbrev made : Action Volume
    made = check_credit svc u g req.size_gib >> insert row >>= provision svc prov u

    Roomy : Store → Type 0
    Roomy s = Inv svc s.volumes s.next_id × Room svc row s.volumes

    insert-Kept : (s : Store) → Roomy s → Kept (insert row s)
    unfolding Roomy
    insert-Kept s (inv, room) =
        statement_elim Kept
          (λ s.
            let v = record row { id = s.next_id } in
            (v, record s { volumes = s.volumes ++ v ∷ []; next_id = suc s.next_id }))
          s (λ fs. inv) (λ fs. insert-Inv svc s.volumes s.next_id inv row positive room)

    made-Kept : (s : Store) → Roomy s → Kept (made s)
    unfolding Roomy provision
    made-Kept s roomy =
        then_elim Kept Kept (check_credit svc u g req.size_gib >> insert row) (provision svc prov u)
          s
          (then_elim (λ r. Roomy r.1) Kept (check_credit svc u g req.size_gib) (λ _. insert row) s
            (check_credit-keeps Roomy (λ s d q. q) u g req.size_gib s roomy)
            (λ a t q. insert-Kept t q) (λ x t q. q.0))
          (λ v t q.
            bind_claim-Kept (prov.create_pvc (user_ns svc u) (pvc_of v) v.size_gib) (user_ns svc u)
              v t q)
          (λ x t q. q)

    -- Create, once `alloc` is counted.
    abbrev cont : ℤ → Action Volume
    cont alloc =
        if ltb_ℤ (quota_for_team svc u g) (alloc +ℤ req.size_gib)
        then raise quota_exceeded
        else made

    cont-Kept :
        (alloc : ℤ) (t : Store)
        → Inv svc t.volumes t.next_id
        → (ltb_ℤ (quota_for_team svc u g) (alloc +ℤ req.size_gib) ≡ false → Room svc row t.volumes)
        → Kept (cont alloc t)
    unfolding Roomy
    cont-Kept alloc t inv room =
        elim (Bool-cases (ltb_ℤ (quota_for_team svc u g) (alloc +ℤ req.size_gib))) [
          | inl above ↦ rw above inv
          | inr within ↦ rw within (made-Kept t (inv, room within))
        ]

    counted-keeps : (s : Store) → Inv svc s.volumes s.next_id → Kept (counted svc u g s)
    unfolding counted
    counted-keeps s inv = elim (Bool-cases (g == 0)) [
      | inl personal ↦
          rw personal (
            statement_elim Kept (λ s. (sum_gib (of_owner u) s.volumes, s)) s (λ fs. inv)
              (λ fs. inv))
      | inr team ↦ rw team (
          statement_elim Kept (λ s. (sum_gib (of_team u g) s.volumes, s)) s (λ fs. inv) (λ fs. inv))
    ]

    -- A volume without a team is counted for none.
    personal-Room : (g == 0) ≡ true → (vs : List Volume) → TeamWithin svc vs → Room svc row vs
    personal-Room personal vs within u' g' h =
        let outside : gib (of_team u' g') row ≡ pos 0 = rw personal (ground arith) in
        rw outside
          (plus_zero (sum_gib (of_team u' g') vs) (quota_for_team svc u' g') (within u' g' h))

    team-Room :
        (vs : List Volume)
        → TeamWithin svc vs
        → ltb_ℤ (quota_for_team svc u g) (sum_gib (of_team u g) vs +ℤ req.size_gib) ≡ false
        → Room svc row vs
    team-Room vs within enough u' g' h = elim (Bool-cases (of_team u' g' row)) [
      | inr other ↦
          rw other
            (plus_zero (sum_gib (of_team u' g') vs) (quota_for_team svc u' g') (within u' g' h))
      | inl here ↦
          let same_user : u' ≡ u = ground (arith, here) in
          let same_team : g' ≡ g = ground (arith, here) in
          rw here (rw (same_user, same_team) (ground (arith, enough)))
    ]

    counted_team :
        (s : Store)
        → (g == 0) ≡ false
        → Readable s.wallets.faults
        → counted svc u g s ≡ (ok (sum_gib (of_team u g) s.volumes), at s (rest s.wallets.faults))
    unfolding counted
    counted_team s team readable = rw team (
        ap (λ r. (ok (elim r.0 as (λ _. ℤ) [ ok n ↦ n | err _ ↦ pos 0 ]), r.1))
          (statement-Readable (λ s. (sum_gib (of_team u g) s.volumes, s)) s readable))

    pub create-Kept :
        (s : Store)
        → Readable s.wallets.faults
        → Inv svc s.volumes s.next_id
        → Kept (create svc prov now u g req s)
    unfolding create
    create-Kept s readable inv = elim (Bool-cases (g == 0)) [
      | inl personal ↦
          then_elim Kept Kept (counted svc u g) cont s (counted-keeps s inv)
            (λ alloc t q. cont-Kept alloc t q (λ _. personal-Room personal t.volumes q.3))
            (λ x t q. q)
      | inr team ↦
          subst Kept (sym (then_ok (counted svc u g) cont s (counted_team s team readable))) (
            cont-Kept (sum_gib (of_team u g) s.volumes) (at s (rest s.wallets.faults)) inv
              (team-Room s.volumes inv.3))
    ]
