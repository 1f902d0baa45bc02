-- ===== src/Session/Lease/Expires.antt =====
-- No session is running past the longest lease.
use giosk.Prelude.{
  ℕ, suc, zero, ◌+◌, ◌*◌, ◌≤◌, ◌<◌, ◌≡◌, refl, sym, subst, inl, inr, leb, Bool, true, false, ◌&&◌,
  not, Bool-cases, Option, none, some, List, [], ◌∷◌, ℤ, pos, ◌≤ℤ◌, ◌<ℤ◌, ltb_ℤ, pos_part, All,
  arith, int_laws,
}
use giosk.Wallet.Db.{Db, Result, ok, err}
use giosk.Wallet.Db.Faults.{at, attempt-clear}
use giosk.Wallet.Service.{Service}
use giosk.Wallet.Service.Passes.{over_rows, listed}
use giosk.Session.Billing.{Phase, running, Meter}
use giosk.Session.Billing.Once.{is_running}
use giosk.Session.Lifecycle.{auto_stop}
use giosk.Session.Lifecycle.Clear.{auto_stop-Over}
use giosk.Session.Lease.{
  Lease, Leased, times, total_hours, hour, expired, reap_row, reap_lease_once, lease_tick,
}
use giosk.Session.Lease.Capped.{Capped, Reach, Reach-Capped}

-- More extensions never make a shorter lease.
times-monotone : (z : ℤ) (n m : ℕ) → pos 0 ≤ℤ z → n ≤ m → times n z ≤ℤ times m z
unfolding times
times-monotone z zero zero h k = omega int_laws
times-monotone z zero (suc m) h k =
    let below = times-monotone z zero m h (ground arith) in omega (int_laws, below, h)
times-monotone z (suc n) zero h k = ground arith
times-monotone z (suc n) (suc m) h k =
    let below = times-monotone z n m h (ground arith) in omega (int_laws, below, h)

total_hours-monotone :
    (l : Lease) (n m : ℕ) → pos 0 ≤ℤ l.extension_hours → n ≤ m → total_hours l n ≤ℤ total_hours l m
unfolding total_hours
total_hours-monotone l n m h k =
    let below = times-monotone l.extension_hours n m h k in omega (int_laws, below)

-- No lease is shorter than the one without an extension.
total_hours-base : (l : Lease) (n : ℕ) → pos 0 ≤ℤ l.extension_hours → l.max_hours ≤ℤ total_hours l n
unfolding total_hours times
total_hours-base l n h =
    let below = times-monotone l.extension_hours 0 n h (ground arith) in omega (int_laws, below)

-- A container that runs was started less than the longest lease ago.
abbrev pub Within : Lease → ℕ → ℕ → Leased → Type 0
Within l m now r =
    (r.session.phase ≡ running)
    → r.session.ssh ≡ false
    → (started : ℕ) → r.session.started_at ≡ some started
    → now < started + pos_part (total_hours l m) * hour

module _ (l : Lease) (m : ℕ) (cap : l.max_extensions ≡ pos m) where
  module _ (base : pos 0 <ℤ l.max_hours) (longer : pos 0 ≤ℤ l.extension_hours) (meter : Meter)
      (charger : Option Service) (now : ℕ) where
    -- A row that the reaper leaves alone is within the longest lease.
    kept-Within :
        (r : Leased)
        → Capped m r
        → (is_running r.session.phase && expired l now r) ≡ false
        → Within l m now r
    unfolding expired
    kept-Within r h kept runs container started since =
        let shorter = total_hours-monotone l r.extensions_used m longer h in
        let positive = total_hours-base l r.extensions_used longer in
        let total = total_hours l r.extensions_used in
        let early : (ltb_ℤ (pos 0) total && leb (started + pos_part total * hour) now) ≡ false =
          subst (λ o. late running false o ≡ false) since
            (subst (λ c. late running c r.session.started_at ≡ false) container
              (subst (λ p. late p r.session.ssh r.session.started_at ≡ false) runs kept)) in
        ground (arith, early, shorter, positive, base)
      where
        late : Phase → Bool → Option ℕ → Bool
        late phase ssh since =
            let total = total_hours l r.extensions_used in
            is_running phase && elim since [
              | none ↦ false
              | some started ↦
                  not ssh && (ltb_ℤ (pos 0) total && leb (started + pos_part total * hour) now)
            ]

    over_rows-Within :
        (rows : List Leased) (d : Db)
        → d.faults ≡ []
        → All (Capped m) rows
        → All (Within l m now) (over_rows (reap_row l meter charger now) rows d).0
    unfolding over_rows reap_row
    over_rows-Within [] d clear h = tt
    over_rows-Within (r ∷ rs) d clear (h, hs) =
        let over = auto_stop-Over meter charger now r.session d clear in
        elim (Bool-cases (is_running r.session.phase && expired l now r)) [
          | inl ended ↦ rw ended (
            (λ runs container started since. ground (arith, over.0, runs)),
            over_rows-Within rs (auto_stop meter charger now r.session d).2 over.1 hs,
          )
          | inr runs ↦ rw runs (kept-Within r h runs, over_rows-Within rs d clear hs)
        ]

    -- In the dynamic mode, with a positive lease and no negative extension, after any extensions, ticks,
    -- creations and changes of sessions: after a tick of the lease reaper in which no statement fails,
    -- every container that still runs was started less than the longest lease, the one with all the
    -- extensions that are allowed, before the tick.
    pub Reach-Within :
        l.dynamic ≡ true
        → {rows : List Leased} → Reach l rows
        → (d : Db) → d.faults ≡ []
        → All (Within l m now) (lease_tick l meter charger now rows d).0
    unfolding lease_tick reap_lease_once listed
    Reach-Within mode {rows} before d clear = rw mode (
        subst
          (λ (r : Result (Unit {0}) × Db).
            All (Within l m now)
              (elim r.0 as (λ _. List Leased × Db) [
                | ok _ ↦ over_rows (reap_row l meter charger now) rows r.1
                | err _ ↦ (rows, r.1)
              ]).0)
          (sym (attempt-clear (λ z. (tt, z)) d clear))
          (over_rows-Within rows (at d []) refl (Reach-Capped l m cap before)))
