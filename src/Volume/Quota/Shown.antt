-- ===== src/Volume/Quota/Shown.antt =====
-- The numbers on the page of volumes are those that Create compares.
use giosk.Prelude.{
  ℕ, ◌≡◌, refl, sym, ap, subst, ◌↔◌, inl, inr, Bool, true, false, Option, none, some, [], ◌∷◌, ◌++◌,
  suc, update_where, ℤ, pos, ◌+ℤ◌, ◌<ℤ◌, arith, Bool-cases, ltb_ℤ, if◌then◌else◌,
}
use giosk.Session.Billing.{quotient}
use giosk.Wallet.Db.Faults.{rest}
use giosk.Wallet.Service.{Service as Charger, balance}
use giosk.Volume.Store.{
  Volume, Store, Error, is_id, Result, ok, err, Action, ◌>>=◌, ◌>>◌, pure, raise, of_owner, sum_gib,
  insert, set_bound, quota_exceeded, db_error, not_found, invalid_group_id, owner_required,
  insufficient_credit, bound, failed,
}
use giosk.Volume.Store.Statements.{at, statement_elim, then_elim, statement-Readable, Readable}
use giosk.Volume.Quota.{
  Service, Provisioner, CreateReq, Quota, quota_for, quota_for_team, list_quota, counted,
  check_credit, provision, new_volume, create, pvc_of, monthly_cost, with_wallets, user_ns,
  home_used_gib,
}

-- The answer is not about the quota.
abbrev is_quota : Error → Bool
is_quota quota_exceeded = true
is_quota db_error = false
is_quota not_found = false
is_quota insufficient_credit = false
is_quota invalid_group_id = false
is_quota owner_required = false

abbrev quota_answer : {A : Type 0} → Result A → Bool
quota_answer (ok _) = false
quota_answer (err x) = is_quota x

abbrev Other : {A : Type 0} → Result A × Store → Type 0
Other r = quota_answer r.0 ≡ false

check_credit-Other :
    (svc : Service) (u g : ℕ) (size : ℤ) (s : Store) → Other (check_credit svc u g size s)
unfolding check_credit
check_credit-Other svc u g size s = by_charger svc.charger
  where
    refused :
        (c : Bool) (t : Store) → Other ((if c then raise insufficient_credit else pure (tt {0})) t)
    refused true t = refl
    refused false t = refl

    by_charger :
        (o : Option Charger)
        → Other (
            (elim o as (λ _. Action (Unit {0})) [
              | none ↦ pure tt
              | some w ↦
                  if ltb_ℤ (pos 0) svc.price
                  then with_wallets (balance w u g) >>= (λ b.
                    if ltb_ℤ b (quotient (monthly_cost svc size) 30)
                    then raise insufficient_credit
                    else pure tt)
                  else pure tt
            ])
              s)
    by_charger none = refl
    by_charger (some w) = elim (Bool-cases (ltb_ℤ (pos 0) svc.price)) [
      | inr free ↦ rw free refl
      | inl priced ↦ rw priced (
          refused (ltb_ℤ ((balance w u g s.wallets).0) (quotient (monthly_cost svc size) 30))
            (record s { wallets = (balance w u g s.wallets).1 }))
    ]

module _ (svc : Service) (prov : Provisioner) (now u : ℕ) (req : CreateReq) (s : Store)
    (readable : Readable s.wallets.faults) where
  abbrev made : Action Volume
  made =
      check_credit svc u 0 req.size_gib >> insert (new_volume now u 0 req) >>= provision svc prov u

  abbrev row : Volume
  row = new_volume now u 0 req

  provision-Other : (v : Volume) (t : Store) → Other (provision svc prov u v t)
  unfolding provision
  provision-Other v t =
      let made = prov.create_pvc (user_ns svc u) (pvc_of v) v.size_gib in
      let status = if made then bound else failed in
      then_elim Other Other (set_bound v.id (pvc_of v) (user_ns svc u) status)
        (λ _.
          pure (record v { pvc_name = pvc_of v; pvc_namespace = user_ns svc u; status = status }))
        t
        (statement_elim Other
          (λ s. (
            tt,
            record s {
              volumes =
                  update_where (is_id v.id)
                    (λ v'. record v' {
                      pvc_name = pvc_of v;
                      pvc_namespace = user_ns svc u;
                      status = status;
                    })
                    s.volumes;
            },
          ))
          t (λ fs. refl) (λ fs. refl))
        (λ a t' q. refl) (λ x t' q. q)

  made-Other : (t : Store) → Other (made t)
  made-Other t =
      then_elim Other Other (check_credit svc u 0 req.size_gib >> insert row) (provision svc prov u)
        t
        (then_elim Other Other (check_credit svc u 0 req.size_gib) (λ _. insert row) t
          (check_credit-Other svc u 0 req.size_gib t)
          (λ a t' q.
            statement_elim Other
              (λ s.
                let v = record row { id = s.next_id } in
                (v, record s { volumes = s.volumes ++ v ∷ []; next_id = suc s.next_id }))
              t' (λ fs. refl) (λ fs. refl))
          (λ x t' q. q))
        (λ v t' q. provision-Other v t') (λ x t' q. q)

  -- What is shown.
  abbrev pub shown : Quota
  shown = record {
    allocated_gb = sum_gib (of_owner u) s.volumes +ℤ home_used_gib svc u;
    home_gb = home_used_gib svc u;
    total_gb = quota_for svc u;
  }

  -- Where the sum of the volumes is read, the page shows for a user the sum that it is and the limit; and
  -- Create refuses a volume without a team for the quota exactly where, on the page, what is allocated
  -- and the size asked for are together above the total.
  pub list_quota-create :
      ((list_quota svc u s).0 ≡ ok shown)
      × (((create svc prov now u 0 req s).0 ≡ err quota_exceeded)
          ↔ (shown.total_gb <ℤ shown.allocated_gb +ℤ req.size_gib))
  unfolding list_quota create counted quota_for_team
  list_quota-create =
      subst Agree (sym (statement-Readable (λ s. (sum_gib (of_owner u) s.volumes, s)) s readable)) (
        refl,
        elim (Bool-cases (ltb_ℤ shown.total_gb (shown.allocated_gb +ℤ req.size_gib))) [
          | inl above ↦ rw above (λ _. ground (arith, above), λ _. refl)
          | inr within ↦ rw within (
            λ h. ground (arith, made-Other (at s (rest s.wallets.faults)), ap quota_answer h),
            λ h. ground (arith, within, h),
          )
        ],
      )
    where
      quota_of : ℤ → Quota
      quota_of alloc = record {
        allocated_gb = alloc +ℤ home_used_gib svc u;
        home_gb = home_used_gib svc u;
        total_gb = quota_for svc u;
      }

      Agree : Result ℤ × Store → Type 0
      Agree r =
          let alloc = elim r.0 as (λ _. ℤ) [ ok n ↦ n | err _ ↦ pos 0 ] in
          (◌≡◌ {A = Result Quota} (ok (quota_of alloc)) (ok shown))
          × ((((if ltb_ℤ (quota_for svc u) (alloc +ℤ home_used_gib svc u +ℤ req.size_gib)
                    then raise quota_exceeded
                    else made)
                  r.1).0
                ≡ err quota_exceeded)
              ↔ (shown.total_gb <ℤ shown.allocated_gb +ℤ req.size_gib))
