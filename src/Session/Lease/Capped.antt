-- ===== src/Session/Lease/Capped.antt =====
-- What can happen to the leased sessions, and the bound on their extensions.
use giosk.Prelude.{
  ℕ, ◌≤◌, ◌==◌, ◌≡◌, ◌⊎◌, inl, inr, Bool, true, false, ◌&&◌, Bool-cases, Option, List, [], ◌∷◌,
  ◌++◌, String, str_eq, pos, ltb_ℤ, if◌then◌else◌, All, All-snoc, arith,
}
use giosk.Wallet.Db.{Db, Result, ok, err, attempt}
use giosk.Wallet.Db.Faults.{at, attempt_elim}
use giosk.Wallet.Service.{Service}
use giosk.Wallet.Service.Passes.{over_rows, listed}
use giosk.Session.Billing.{Session, Meter}
use giosk.Session.Billing.Once.{is_running}
use giosk.Session.Lifecycle.{auto_stop}
use giosk.Session.Lease.{
  Answer, extended, extend_unavailable, Lease, Leased, increment_extensions, extend, expired,
  reap_row, reap_lease_once, lease_tick,
}

-- Every session changed, the numbers of extensions kept.
abbrev pub changed : (Leased → Session) → List Leased → List Leased
changed f [] = []
changed f (r ∷ rs) = record r { session = f r } ∷ changed f rs

-- A row has at most `m` extensions.
abbrev pub Capped : ℕ → Leased → Type 0
Capped m r = r.extensions_used ≤ m

increment_extensions-Capped :
    (i : String) (u m : ℕ) (rows : List Leased)
    → All (Capped m) rows
    → All (Capped m) (increment_extensions i u (pos m) rows).1
unfolding increment_extensions
increment_extensions-Capped i u m [] h = tt
increment_extensions-Capped i u m (r ∷ rs) (h, hs) =
    elim (Bool-cases (
      str_eq r.session.instance_id i
      && r.session.user_id == u
      && ltb_ℤ (pos r.extensions_used) (pos m))) [
        | inl hit ↦ rw hit (ground (arith, hit), increment_extensions-Capped i u m rs hs)
        | inr miss ↦ rw miss (h, increment_extensions-Capped i u m rs hs)
      ]

module _ (l : Lease) where
  -- What can happen to the rows: an extension by anyone, a tick of the reaper, the creation of a
  -- session, and any change of sessions elsewhere, which leaves the numbers of extensions.
  pub data Step : List Leased → List Leased → Type 1 where
    extends : (i : String) (u : ℕ) (rows : List Leased) (d : Db) → Step rows (extend l i u rows d).1
    ticks :
        (meter : Meter) (charger : Option Service) (now : ℕ) (rows : List Leased) (d : Db)
        → Step rows (lease_tick l meter charger now rows d).0
    creates :
        (s : Session) (rows : List Leased)
        → Step rows (rows ++ record { session = s; extensions_used = 0 } ∷ [])
    changes : (f : Leased → Session) (rows : List Leased) → Step rows (changed f rows)

  pub data Reach : List Leased → Type 1 where
    empty : Reach []
    next : {rows rows' : List Leased} → Reach rows → Step rows rows' → Reach rows'

module _ (l : Lease) (m : ℕ) (cap : l.max_extensions ≡ pos m) where
  extend-Capped :
      (i : String) (u : ℕ) (rows : List Leased) (d : Db)
      → All (Capped m) rows
      → All (Capped m) (extend l i u rows d).1
  unfolding extend
  extend-Capped i u rows d h =
      by_mode l.dynamic (attempt (λ z. (tt, z)) d).0 (attempt (λ z. (tt, z)) d).1 (Bool-cases hit)
    where
      hit : Bool
      hit = (increment_extensions i u l.max_extensions rows).0

      rows' : List Leased
      rows' = (increment_extensions i u l.max_extensions rows).1

      capped : All (Capped m) rows'
      capped = rw cap (increment_extensions-Capped i u m rows h)

      by_mode :
          (b : Bool) (r : Result (Unit {0})) (e : Db)
          → (hit ≡ true) ⊎ (hit ≡ false)
          → All
              (Capped m)
              (if b
                then elim r as (λ _. Answer × List Leased × Db) [
                  | err _ ↦ (Answer.db_error, rows, e)
                  | ok _ ↦ if hit then (extended, rows', e) else (extend_unavailable, rows', e)
                ]
                else (extend_unavailable, rows, d)).1
      by_mode false r e c = h
      by_mode true (err x) e c = h
      by_mode true (ok x) e (inl k) = rw k capped
      by_mode true (ok x) e (inr k) = rw k capped

  over_rows-Capped :
      (meter : Meter) (charger : Option Service) (now : ℕ) (rows : List Leased) (d : Db)
      → All (Capped m) rows
      → All (Capped m) (over_rows (reap_row l meter charger now) rows d).0
  unfolding over_rows reap_row
  over_rows-Capped meter charger now [] d h = tt
  over_rows-Capped meter charger now (r ∷ rs) d (h, hs) =
      let after = reap_row l meter charger now r d in
      elim (Bool-cases (is_running r.session.phase && expired l now r)) [
        | inl over ↦ rw over (
          h,
          over_rows-Capped meter charger now rs (auto_stop meter charger now r.session d).2 hs,
        )
        | inr runs ↦ rw runs (h, over_rows-Capped meter charger now rs d hs)
      ]

  lease_tick-Capped :
      (meter : Meter) (charger : Option Service) (now : ℕ) (rows : List Leased) (d : Db)
      → All (Capped m) rows
      → All (Capped m) (lease_tick l meter charger now rows d).0
  unfolding lease_tick reap_lease_once listed
  lease_tick-Capped meter charger now rows d h = by_mode l.dynamic
    where
      by_mode :
          (b : Bool)
          → All (Capped m) (if b then reap_lease_once l meter charger now rows d else (rows, d)).0
      by_mode false = h
      by_mode true =
          attempt_elim
            (λ r.
              All (Capped m)
                (elim r.0 as (λ _. List Leased × Db) [
                  | ok _ ↦ over_rows (reap_row l meter charger now) rows r.1
                  | err _ ↦ (rows, r.1)
                ]).0)
            (λ z. (tt, z)) d (λ fs. h) (λ fs. over_rows-Capped meter charger now rows (at d fs) h)

  changed-Capped :
      (f : Leased → Session) (rows : List Leased)
      → All (Capped m) rows
      → All (Capped m) (changed f rows)
  changed-Capped f [] h = tt
  changed-Capped f (r ∷ rs) (h, hs) = (h, changed-Capped f rs hs)

  Step-Capped :
      {rows rows' : List Leased} → Step l rows rows' → All (Capped m) rows → All (Capped m) rows'
  Step-Capped (extends i u rows d) h = extend-Capped i u rows d h
  Step-Capped (ticks meter charger now rows d) h = lease_tick-Capped meter charger now rows d h
  Step-Capped (creates s rows) h =
      All-snoc (Capped m) rows (record { session = s; extensions_used = 0 }) h (ground arith)
  Step-Capped (changes f rows) h = changed-Capped f rows h

  pub Reach-Capped : {rows : List Leased} → Reach l rows → All (Capped m) rows
  Reach-Capped empty = tt
  Reach-Capped (next before step) = Step-Capped step (Reach-Capped before)
