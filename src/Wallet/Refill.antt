-- ===== src/Wallet/Refill.antt =====
-- backend/internal/wallet/refill.go: the periodic refill of organisations, groups and members.
-- The settings and the immediate refill are in `Schedule`.
-- An instant is its distance in nanoseconds from Go's zero time; interval * 24h is taken to fit a
-- time.Duration, which holds up to 106751 days.
pub mod Twice
pub mod Carry
pub mod Schedule
use giosk.Prelude.{
  ℕ, suc, ◌+◌, ◌*◌, Bool, true, false, ◌&&◌, ◌||◌, not, Option, none, some, List, [], ◌∷◌, ◌++◌, ℤ,
  pos, negsuc, pos_part, ◌+ℤ◌, ltb_ℤ, leb_ℤ, ltb, leb, ◌==◌, if◌then◌else◌, first_where,
  update_where,
}
use giosk.Wallet.Db.{
  UserWallet, GroupWallet, TxType, UserTx, Organization, Group, Db, Action, ◌>>=◌, ◌>>◌, attempt,
  gets, pure, raise, no_recurring,
}
use giosk.Wallet.Store.{
  user_key, group_key, ensure_user, ensure_group, new_user_wallet, new_group_wallet, user_wallet,
}
use giosk.Wallet.Service.{Service, plat_default, resolve_group}

-- 24 * time.Hour
abbrev pub day : ℕ
day = 86_400_000_000_000

pub record PlatformRefill : Type 0 where
  pub interval_days : ℤ
  pub carryover : Bool

-- The value of a pointer that is read as the zero time where it is nil.
abbrev pub since_of : Option ℕ → ℕ
since_of none = 0
since_of (some c) = c

-- The instant an interval after `c`.
abbrev pub after_days : ℕ → ℤ → ℕ
after_days c iv = c + pos_part iv * day

pub boundary_crossed : Bool → Option ℕ → ℕ → Bool
boundary_crossed carryover none since = false
boundary_crossed carryover (some c) since = not carryover && ltb since c

pub due : Option ℕ → ℤ → ℕ → Bool
due none iv now = ltb_ℤ (pos 0) iv
due (some c) iv now = ltb_ℤ (pos 0) iv && leb (after_days c iv) now

-- What the pass over a level leaves for those below: the cycle after it, the carry-over, the
-- effective interval. `nothing` is what a map lookup gives for an entity that was not visited.
pub record Visit : Type 0 where
  pub cycle : Option ℕ
  pub carryover : Bool
  pub eff : ℤ

abbrev pub nothing : Visit
nothing = record { cycle = none; carryover = false; eff = pos 0 }

abbrev pub visit_of : ℕ → List (ℕ × Visit) → Visit
visit_of id [] = nothing
visit_of id ((k, v) ∷ vs) = if k == id then v else visit_of id vs

abbrev or_else : ℤ → ℤ → ℤ
or_else iv default = if leb_ℤ iv (pos 0) then default else iv

-- The amount after a refill: what was left is kept unless it is wiped.
abbrev pub topped : Bool → ℤ → ℤ → ℤ
topped wipe balance recurring = if wipe then recurring else balance +ℤ recurring

abbrev cycle_after : Bool → ℕ → Option ℕ → Option ℕ
cycle_after is_due now cycle = if is_due then some now else cycle

-- 1) An organisation with a recurring credit that is active.
org_eligible : Organization → Bool
org_eligible o = ltb_ℤ (pos 0) o.recurring_credit && o.is_active

org_interval : PlatformRefill → Organization → ℤ
org_interval p o = or_else o.refill_interval_days p.interval_days

org_due : PlatformRefill → ℕ → Organization → Bool
org_due p now o = org_eligible o && due o.recurring_cycle_started_at (org_interval p o) now

org_wipe : PlatformRefill → Option ℕ → Organization → Bool
org_wipe p plat_cycle o =
    not o.carryover
    || boundary_crossed p.carryover plat_cycle (since_of o.recurring_cycle_started_at)

org_refilled : PlatformRefill → Option ℕ → ℕ → Organization → Organization
org_refilled p plat_cycle now o = record o {
  credit_pool = topped (org_wipe p plat_cycle o) o.credit_pool o.recurring_credit;
  recurring_cycle_started_at = some now;
}

org_visit : PlatformRefill → ℕ → Organization → Visit
org_visit p now o = record {
  cycle = cycle_after (org_due p now o) now o.recurring_cycle_started_at;
  carryover = o.carryover;
  eff = org_interval p o;
}

org_visits : PlatformRefill → ℕ → List Organization → List (ℕ × Visit)
org_visits p now [] = []
org_visits p now (o ∷ os) =
    if org_eligible o then (o.id, org_visit p now o) ∷ org_visits p now os else org_visits p now os

-- `writes` says for which organisations the update works.
pass_orgs : PlatformRefill → Option ℕ → ℕ → (ℕ → Bool) → List Organization → List Organization
pass_orgs p plat_cycle now writes os =
    update_where (λ o. writes o.id && org_due p now o) (org_refilled p plat_cycle now) os

count_where {ℓ} : {A : Type ℓ} → (A → Bool) → List A → ℕ
count_where q [] = 0
count_where q (x ∷ xs) = if q x then suc (count_where q xs) else count_where q xs

-- 2) A group's wallet with a recurring credit, whose group there is.
org_id_of : List Group → ℕ → Option ℕ
org_id_of [] g = none
org_id_of (r ∷ rs) g = if r.id == g then some r.org_id else org_id_of rs g

-- The pass over the groups reads what the pass over the organisations left.
pub record Above : Type 0 where
  pub plat : PlatformRefill
  pub plat_cycle : Option ℕ
  pub now : ℕ
  pub groups : List Group
  pub orgs : List (ℕ × Visit)

abbrev org_above : Above → ℕ → Visit
org_above a g = elim (org_id_of a.groups g) [ none ↦ nothing | some o ↦ visit_of o a.orgs ]

abbrev joined : Above → ℕ → Bool
joined a g = elim (org_id_of a.groups g) [ none ↦ false | some o ↦ true ]

group_eligible : Above → GroupWallet → Bool
group_eligible a w = ltb_ℤ (pos 0) w.recurring_credit && joined a w.group_id

group_interval : Above → GroupWallet → ℤ
group_interval a w =
    if leb_ℤ w.refill_interval_days (pos 0)
    then (if ltb_ℤ (pos 0) (org_above a w.group_id).eff
        then (org_above a w.group_id).eff
        else a.plat.interval_days)
    else w.refill_interval_days

pub group_due : Above → GroupWallet → Bool
group_due a w = group_eligible a w && due w.cycle_started_at (group_interval a w) a.now

group_wipe : Above → GroupWallet → Bool
group_wipe a w =
    let since = since_of w.cycle_started_at in
    let org = org_above a w.group_id in
    not w.carryover
    || boundary_crossed a.plat.carryover a.plat_cycle since
    || boundary_crossed org.carryover org.cycle since

group_refilled : Above → GroupWallet → GroupWallet
group_refilled a w = record w {
  balance = topped (group_wipe a w) w.balance w.recurring_credit;
  cycle_started_at = some a.now;
}

group_visit : Above → GroupWallet → Visit
group_visit a w = record {
  cycle = cycle_after (group_due a w) a.now w.cycle_started_at;
  carryover = w.carryover;
  eff = group_interval a w;
}

group_visits : Above → List GroupWallet → List (ℕ × Visit)
group_visits a [] = []
group_visits a (w ∷ ws) =
    if group_eligible a w
    then (w.group_id, group_visit a w) ∷ group_visits a ws
    else group_visits a ws

pass_groups : Above → (ℕ → Bool) → List GroupWallet → List GroupWallet
pass_groups a writes ws =
    update_where (λ w. writes w.group_id && group_due a w) (group_refilled a) ws

-- 3) A member's wallet with a recurring credit, whose group there is. Without an interval of its
-- own it goes by the platform's.
user_eligible : Above → UserWallet → Bool
user_eligible a w = ltb_ℤ (pos 0) w.recurring_credit && joined a w.group_id

pub user_due : Above → UserWallet → Bool
user_due a w =
    user_eligible a w
    && due w.cycle_started_at (or_else w.refill_interval_days a.plat.interval_days) a.now

user_wipe : Above → List (ℕ × Visit) → UserWallet → Bool
user_wipe a gs w =
    let since = since_of w.cycle_started_at in
    let org = org_above a w.group_id in
    let group = visit_of w.group_id gs in
    not w.carryover
    || boundary_crossed a.plat.carryover a.plat_cycle since
    || boundary_crossed org.carryover org.cycle since
    || boundary_crossed group.carryover group.cycle since

user_refilled : Above → List (ℕ × Visit) → UserWallet → UserWallet
user_refilled a gs w = record w {
  balance = topped (user_wipe a gs w) w.balance w.recurring_credit;
  cycle_started_at = some a.now;
}

pass_users : Above → List (ℕ × Visit) → (ℕ → ℕ → Bool) → List UserWallet → List UserWallet
pass_users a gs writes ws =
    update_where (λ w. writes w.user_id w.group_id && user_due a w) (user_refilled a gs) ws

refill_tx : UserWallet → UserTx
refill_tx w = record {
  user_id = w.user_id;
  group_id = w.group_id;
  kind = TxType.recharge;
  amount = w.recurring_credit;
  balance_after = w.balance;
  description = "정기 리필";
  ref = none;
  actor = none;
}

user_journal : Above → List (ℕ × Visit) → (ℕ → ℕ → Bool) → List UserWallet → List UserTx
user_journal a gs logs [] = []
user_journal a gs logs (w ∷ ws) =
    if logs w.user_id w.group_id && user_due a w
    then refill_tx (user_refilled a gs w) ∷ user_journal a gs logs ws
    else user_journal a gs logs ws

-- 0) The platform's own cycle.
plat_cycle_at : PlatformRefill → ℕ → Option ℕ → Option ℕ
plat_cycle_at p now cycle = cycle_after (due cycle p.interval_days now) now cycle

-- Which statements of the transaction work: the reads, and the writes by the keys of their rows. The
-- error of each is dropped, and the transaction goes on: a read that fails gives no row.
pub record Statements : Type 0 where
  pub reads_state : Bool
  pub writes_state : Bool
  pub reads_orgs : Bool
  pub writes_org : ℕ → Bool
  pub reads_groups : Bool
  pub writes_group : ℕ → Bool
  pub reads_users : Bool
  pub writes_user : ℕ → ℕ → Bool
  pub logs_user : ℕ → ℕ → Bool

-- No statement fails.
abbrev pub all_work : Statements
all_work = record {
  reads_state = true;
  writes_state = true;
  reads_orgs = true;
  writes_org = λ o. true;
  reads_groups = true;
  writes_group = λ g. true;
  reads_users = true;
  writes_user = λ u g. true;
  logs_user = λ u g. true;
}

abbrev seen {ℓ} : {A : Type ℓ} → Bool → List A → List A
seen true xs = xs
seen false xs = []

-- The cycle of the platform that is read.
abbrev cycle_read : Statements → Db → Option ℕ
cycle_read f d = if f.reads_state then d.platform_cycle_started_at else none

pub above_with : Statements → PlatformRefill → ℕ → Db → Above
above_with f p now d = record {
  plat = p;
  plat_cycle = plat_cycle_at p now (cycle_read f d);
  now = now;
  groups = d.groups;
  orgs = org_visits p now (seen f.reads_orgs d.organizations);
}

-- The same where no statement fails.
pub above_of : PlatformRefill → ℕ → Db → Above
unfolding above_with
above_of p now d = above_with all_work p now d

-- The transaction of RefillDue: the number of pools that it counts as refilled, and the tables.
pub refill_with : Statements → PlatformRefill → ℕ → Db → ℕ × Db
refill_with f p now d =
    let a = above_with f p now d in
    let gs = group_visits a (seen f.reads_groups d.group_wallets) in
    (
      count_where (org_due p now) (seen f.reads_orgs d.organizations)
          + count_where (group_due a) (seen f.reads_groups d.group_wallets)
          + count_where (user_due a) (seen f.reads_users d.user_wallets),
      record d {
        platform_cycle_started_at =
            cycle_after (f.writes_state && due (cycle_read f d) p.interval_days now) now
              d.platform_cycle_started_at;
        organizations =
            pass_orgs p a.plat_cycle now (λ o. f.reads_orgs && f.writes_org o) d.organizations;
        group_wallets = pass_groups a (λ g. f.reads_groups && f.writes_group g) d.group_wallets;
        user_wallets = pass_users a gs (λ u g. f.reads_users && f.writes_user u g) d.user_wallets;
        user_txs =
            d.user_txs
            ++ user_journal a gs (λ u g. f.reads_users && f.logs_user u g) d.user_wallets;
      },
    )

-- The same where no statement of the transaction fails.
pub refill : PlatformRefill → ℕ → Db → ℕ × Db
unfolding refill_with
refill p now d = refill_with all_work p now d

-- RefillDue; a failure to begin or to commit is an error and changes nothing.
pub refill_due : Statements → PlatformRefill → ℕ → Action ℕ
unfolding refill_with
refill_due f p now = attempt (refill_with f p now)
