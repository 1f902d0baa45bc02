-- ===== src/Session/Limits.antt =====
-- backend/internal/session/service.go: the gate that a new session passes, and the reservation behind
-- it, in one critical section (`admit`); the counts of backend/internal/session/repo.go.
pub mod Enforced
use giosk.Prelude.{
  ℕ, suc, Bool, true, false, ◌&&◌, ◌||◌, not, Option, none, some, List, [], ◌∷◌, ◌++◌, String, ℤ,
  pos, ◌+ℤ◌, ltb_ℤ, leb_ℤ, ◌==◌, if◌then◌else◌,
}
use giosk.Policy.Resolver.{Resolved, Resolver, resolve}
use giosk.Session.Billing.{quotient, group_or_zero}

pub data Phase : Type 0 where
  provisioning running stopped terminated : Phase

pub record Row : Type 0 where
  pub user_id : ℕ
  pub group_id : Option ℕ
  pub ssh : Bool
  pub phase : Phase
  pub gpu_count : ℤ
  pub vram_mb : ℤ
  pub home_gib : Option ℤ
  pub price_per_hour : ℤ

pub data GateError : Type 0 where
  stopped_limit session_limit home_quota hard_limit insufficient_credit no_capacity create_failed :
      GateError

-- What the service was given: `limits` is none without a resolver, `balance` without a charger,
-- `can_place` without the availability gate, `volume_used` without the volumes' reader. The last three say
-- whether the queries of CountActive, CountStopped and AllocatedHomeGiB work.
pub record Gate : Type 0 where
  pub limits : Option Resolver
  pub max_stopped : ℤ
  pub session_home_gib : ℤ
  pub volume_used : Option (ℕ → ℤ)
  pub balance : Option (ℕ → ℕ → ℤ)
  pub can_place : Option (Row → Bool)
  pub counts_active : Bool
  pub counts_stopped : Bool
  pub sums_homes : Bool

abbrev is_active : Phase → Bool
is_active provisioning = true
is_active running = true
is_active stopped = false
is_active terminated = false

abbrev is_stopped : Phase → Bool
is_stopped stopped = true
is_stopped provisioning = false
is_stopped running = false
is_stopped terminated = false

-- The rows that a query reads: none where it fails, as its error is dropped.
abbrev pub seen : Bool → List Row → List Row
seen true rows = rows
seen false rows = []

-- CountActive
pub count_active : ℕ → List Row → ℕ
count_active u [] = 0
count_active u (r ∷ rs) =
    if r.user_id == u && is_active r.phase then suc (count_active u rs) else count_active u rs

-- CountStopped
pub count_stopped : ℕ → List Row → ℕ
count_stopped u [] = 0
count_stopped u (r ∷ rs) =
    if r.user_id == u && is_stopped r.phase then suc (count_stopped u rs) else count_stopped u rs

abbrev pub gib_or : ℤ → Option ℤ → ℤ
gib_or default none = default
gib_or default (some g) = g

-- AllocatedHomeGiB
pub allocated_home_gib : ℕ → ℤ → List Row → ℤ
allocated_home_gib u default [] = pos 0
allocated_home_gib u default (r ∷ rs) =
    if r.user_id == u && not r.ssh
    then gib_or default r.home_gib +ℤ allocated_home_gib u default rs
    else allocated_home_gib u default rs

abbrev pub volumes_of : Gate → ℕ → ℤ
volumes_of g u = elim g.volume_used [ none ↦ pos 0 | some f ↦ f u ]

-- `limit > 0 && n >= limit`
abbrev reached : ℤ → ℤ → Bool
reached limit n = ltb_ℤ (pos 0) limit && leb_ℤ limit n

-- `limit > 0 && n > limit`
abbrev above : ℤ → ℤ → Bool
above limit n = ltb_ℤ (pos 0) limit && ltb_ℤ limit n

check_home_quota : Gate → List Row → ℕ → Row → ℤ → Option GateError
check_home_quota g rows u sess quota =
    let used = allocated_home_gib u g.session_home_gib (seen g.sums_homes rows) +ℤ volumes_of g u in
    if sess.ssh || leb_ℤ quota (pos 0)
    then none
    else if ltb_ℤ quota (used +ℤ gib_or g.session_home_gib sess.home_gib)
    then some home_quota
    else none

check_resource_limits : Resolved → Row → Option GateError
check_resource_limits lim sess =
    if above lim.max_gpu sess.gpu_count
    then some hard_limit
    else if above lim.max_vram_gb (quotient sess.vram_mb 1024)
    then some hard_limit
    else none

-- `if err := a; err != nil { return err }; return b`
abbrev or_next : Option GateError → Option GateError → Option GateError
or_next none b = b
or_next (some e) b = some e

check_hard_with : Gate → Resolved → List Row → ℕ → Row → Option GateError
unfolding check_home_quota check_resource_limits
check_hard_with g lim rows u sess =
    if reached lim.max_stopped_sessions (pos (count_stopped u (seen g.counts_stopped rows)))
      && not sess.ssh
    then some stopped_limit
    else if reached lim.max_concurrent_sessions (pos (count_active u (seen g.counts_active rows)))
    then some session_limit
    else or_next (check_home_quota g rows u sess lim.max_volume_gib)
        (check_resource_limits lim sess)

pub check_hard_limits : Gate → List Row → ℕ → Row → Option GateError
unfolding check_hard_with
check_hard_limits g rows u sess = elim g.limits [
  | none ↦
      if reached g.max_stopped (pos (count_stopped u (seen g.counts_stopped rows))) && not sess.ssh
      then some stopped_limit
      else none
  | some r ↦ check_hard_with g (resolve r u) rows u sess
]

pub check_affordable : Gate → ℕ → Row → Option GateError
check_affordable g u sess = elim g.balance [
  | none ↦ none
  | some f ↦
      if leb_ℤ sess.price_per_hour (pos 0)
      then none
      else if ltb_ℤ (f u (group_or_zero sess.group_id)) sess.price_per_hour
      then some insufficient_credit
      else none
]

pub check_capacity : Gate → Row → Option GateError
check_capacity g sess = elim g.can_place [
  | none ↦ none
  | some f ↦ if sess.ssh || f sess then none else some no_capacity
]

-- The critical section of Create for a session `sess` of the user `u`; `fails` says whether the
-- insertion of the row does.
pub admit : Gate → Bool → ℕ → Row → List Row → Option GateError × List Row
unfolding check_hard_limits check_affordable check_capacity
admit g fails u sess rows =
    elim (or_next (check_hard_limits g rows u sess)
      (or_next (check_affordable g u sess) (check_capacity g sess))) [
        | some e ↦ (some e, rows)
        | none ↦ if fails then (some create_failed, rows) else (none, rows ++ sess ∷ [])
      ]
