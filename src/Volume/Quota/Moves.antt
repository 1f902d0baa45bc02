-- ===== src/Volume/Quota/Moves.antt =====
-- A volume that moves to another team or is deleted, and the other operations, keep the quotas.
use giosk.Prelude.{
  ℕ, ◌≡◌, refl, sym, ap, subst, ◌∙◌, ◌⊎◌, inl, inr, Bool, true, false, not, Option, none, some,
  List, [], ◌∷◌, ℤ, pos, ◌+ℤ◌, ◌≤ℤ◌, arith, Bool-cases, ltb_ℤ, ◌==◌, if◌then◌else◌, first_where,
  select_where, update_where,
}
use giosk.Wallet.Db.Faults.{rest}
use giosk.Volume.Store.{
  Volume, Store, Result, ok, err, Action, ◌>>=◌, ◌>>◌, pure, is_id, is_value, of_team, sum_gib,
  or_zero, allocated_gib_in_team, set_group, get, find, remove, quota_exceeded, not_found, raise,
}
use giosk.Volume.Store.Statements.{
  at, statement_elim, statement_rest, then_elim, statement-Readable, Readable, Readable2, then_ok,
}
use giosk.Volume.Quota.{Service, quota_for_team, set_volume_team, delete, check_team}
use giosk.Volume.Quota.Tables.{Inv, remove-Inv, move-Inv, moved}
use giosk.Volume.Quota.Within.{Kept}

-- What Get has found.
abbrev Got : ℕ → Store → Result Volume × Store → Type 0
Got i s (ok v, t) = (first_where (is_id i) s.volumes ≡ some v) × (t ≡ at s (rest s.wallets.faults))
Got i s (err x, t) = t ≡ at s (rest s.wallets.faults)

get-Got : (i : ℕ) (s : Store) → Got i s (get i s)
get-Got i s =
    statement_rest
      (λ r.
        Got i s
          (elim r.0 as (λ _. Result Volume × Store) [ ok o ↦ find o r.1 | err e ↦ (err e, r.1) ]))
      (λ s. (first_where (is_id i) s.volumes, s)) s refl
      (by_row (first_where (is_id i) s.volumes) refl)
  where
    by_row :
        (o : Option Volume)
        → first_where (is_id i) s.volumes ≡ o
        → Got i s (find o (at s (rest s.wallets.faults)))
    by_row none e = refl
    by_row (some v) e = (e, refl)

module _ (svc : Service) where
  -- The volume may move to the team `g`.
  abbrev Allowed : ℕ → ℕ → Volume → Store → Type 0
  Allowed u g v s =
      ((g == 0) ≡ true) ⊎ (sum_gib (of_team u g) s.volumes +ℤ v.size_gib ≤ℤ quota_for_team svc u g)

  -- What the check of the team ensures: nothing has moved, and if it passes, there is room.
  Checked : ℕ → ℕ → Volume → Store → Result (Unit {0}) × Store → Type 0
  Checked u g v s (ok _, t) = (t.volumes ≡ s.volumes) × (t.next_id ≡ s.next_id) × Allowed u g v s
  Checked u g v s (err _, t) = (t.volumes ≡ s.volumes) × (t.next_id ≡ s.next_id)

  abbrev after_count : ℕ → ℕ → Volume → ℤ → Action (Unit {0})
  after_count u g v alloc =
      if ltb_ℤ (quota_for_team svc u g) (alloc +ℤ v.size_gib) then raise quota_exceeded else pure tt

  check_team_counts :
      (u g : ℕ) (v : Volume) (s : Store)
      → Readable s.wallets.faults
      → (g == 0) ≡ false
      → check_team svc u g v s
        ≡ after_count u g v (sum_gib (of_team u g) s.volumes) (at s (rest s.wallets.faults))
  check_team_counts u g v s readable team = rw team (
      then_ok (or_zero (allocated_gib_in_team u g)) (after_count u g v) s (
        ap (λ r. (ok (elim r.0 as (λ _. ℤ) [ ok n ↦ n | err _ ↦ pos 0 ]), r.1))
          (statement-Readable (λ s. (sum_gib (of_team u g) s.volumes, s)) s readable)))

  check_team-Checked :
      (u g : ℕ) (v : Volume) (s : Store)
      → Readable s.wallets.faults
      → Checked u g v s (check_team svc u g v s)
  unfolding Checked
  check_team-Checked u g v s readable = elim (Bool-cases (g == 0)) [
    | inl no_team ↦
        subst
          (λ (c : Bool).
            Checked u g v s (
              (if c then pure tt else or_zero (allocated_gib_in_team u g) >>= after_count u g v) s))
          (sym no_team) (refl, refl, inl no_team)
    | inr team ↦
        subst (Checked u g v s) (sym (check_team_counts u g v s readable team))
          (elim (Bool-cases
            (ltb_ℤ (quota_for_team svc u g) (sum_gib (of_team u g) s.volumes +ℤ v.size_gib))) [
              | inl above ↦ rw above (refl, refl)
              | inr within ↦ rw within (refl, refl, inr (ground (arith, within)))
            ])
  ]

  set_group-Kept :
      (u i g : ℕ) (v : Volume) (s : Store)
      → Inv svc s.volumes s.next_id
      → first_where (is_id i) s.volumes ≡ some v
      → is_value u v.owner_user_id ≡ true
      → Allowed u g v s
      → Kept svc (set_group i g s)
  set_group-Kept u i g v s inv found own room =
      statement_elim (Kept svc)
        (λ s. (tt, record s { volumes = update_where (is_id i) (moved g) s.volumes })) s (λ fs. inv)
        (λ fs. move-Inv svc s.volumes s.next_id inv u i g v found own room)

  Inv-same :
      (vs : List Volume) (n : ℕ) (t : Store)
      → t.volumes ≡ vs
      → t.next_id ≡ n
      → Inv svc vs n
      → Inv svc t.volumes t.next_id
  Inv-same vs n t same_rows same_next inv = rw (same_rows, same_next) inv

  -- SetVolumeTeam, once the volume was read.
  abbrev move : ℕ → ℕ → ℕ → Volume → Action (Unit {0})
  move u i g v =
      if is_value u v.owner_user_id then check_team svc u g v >> set_group i g else raise not_found

  move-Kept :
      (u i g : ℕ) (v : Volume) (s : Store)
      → Readable s.wallets.faults
      → Inv svc s.volumes s.next_id
      → first_where (is_id i) s.volumes ≡ some v
      → Kept svc (move u i g v s)
  unfolding Checked
  move-Kept u i g v s readable inv found = elim (Bool-cases (is_value u v.owner_user_id)) [
    | inr foreign ↦ rw foreign inv
    | inl own ↦ rw own (
        then_elim (Checked u g v s) (Kept svc) (check_team svc u g v) (λ _. set_group i g) s
          (check_team-Checked u g v s readable)
          (λ a t q.
            set_group-Kept u i g v t (Inv-same s.volumes s.next_id t q.0 q.1 inv)
              (ap (first_where (is_id i)) q.0 ∙ found) own
              (subst
                (λ (vs : List Volume).
                  ((g == 0) ≡ true)
                  ⊎ (sum_gib (of_team u g) vs +ℤ v.size_gib ≤ℤ quota_for_team svc u g))
                (sym q.0) q.2))
          (λ x t q. Inv-same s.volumes s.next_id t q.0 q.1 inv))
  ]

  pub set_volume_team-Kept :
      (u i g : ℕ) (s : Store)
      → Readable2 s.wallets.faults
      → Inv svc s.volumes s.next_id
      → Kept svc (set_volume_team svc u i g s)
  unfolding set_volume_team
  set_volume_team-Kept u i g s readable inv =
      then_elim (Got i s) (Kept svc) (get i) (move u i g) s (get-Got i s)
        (λ v t q.
          subst (λ (t : Store). Kept svc (move u i g v t)) (sym q.1)
            (move-Kept u i g v (at s (rest s.wallets.faults)) (later s.wallets.faults readable) inv
              q.0))
        (λ x t q. subst (λ (t : Store). Inv svc t.volumes t.next_id) (sym q) inv)
    where
      later : (fs : List Bool) → Readable2 fs → Readable (rest fs)
      later [] h = tt
      later (f ∷ fs) h = h

  remove-Kept : (i : ℕ) (s : Store) → Inv svc s.volumes s.next_id → Kept svc (remove i s)
  remove-Kept i s inv =
      statement_elim (Kept svc)
        (λ s. (tt, record s { volumes = select_where (λ v. not (is_id i v)) s.volumes })) s
        (λ fs. inv) (λ fs. remove-Inv svc s.volumes s.next_id inv (λ v. not (is_id i v)))

  pub delete-Kept : (i u : ℕ) (s : Store) → Inv svc s.volumes s.next_id → Kept svc (delete i u s)
  unfolding delete
  delete-Kept i u s inv =
      then_elim (Got i s) (Kept svc) (get i)
        (λ v. if is_value u v.owner_user_id then remove i else raise not_found) s (get-Got i s)
        (λ v t q. elim (Bool-cases (is_value u v.owner_user_id)) [
          | inl own ↦ rw own (remove-Kept i t (kept t q.1))
          | inr foreign ↦ rw foreign (kept t q.1)
        ])
        (λ x t q. kept t q)
    where
      kept : (t : Store) → t ≡ at s (rest s.wallets.faults) → Inv svc t.volumes t.next_id
      kept t h = subst (λ (t : Store). Inv svc t.volumes t.next_id) (sym h) inv
