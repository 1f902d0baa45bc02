-- ===== src/Notify/Engine.antt =====
-- backend/internal/notify/engine.go: the ticks of the alert engine. What Go computes in float64 and
-- what is asked of Prometheus and of the database is the environment of a tick; an instant is in
-- nanoseconds. Each firing is kept in a journal, the newest first.

pub mod Cooldown
pub mod Ticks
pub mod Content
pub mod Fires
pub mod Direct
use Prim.Native.String.{◌++◌ as append}
use giosk.Prelude.{
  ℕ, ◌-◌, ◌*◌, Bool, true, false, ◌&&◌, not, Option, none, some, List, [], ◌∷◌, String, str_eq, ℤ,
  ltb, ◌==◌, if◌then◌else◌, first_where, select_where,
}
use giosk.Prelude.Text.{decimal, decimal_ℤ}

pub data Scope : Type 0 where
  user admin : Scope

pub record Rule : Type 0 where
  pub scope : Scope
  pub owner_id : ℕ
  pub metric : String
  pub op : String
  pub value : ℤ
  pub channel : String
  pub enabled : Bool
  pub target : String

pub record TeamBalance : Type 0 where
  pub group_id : ℕ
  pub name : String
  pub balance : ℤ
  pub active : Bool

-- `none` for a nil client or function, and for a value that is not there.
pub record Env : Type 1 where
  pub Value : Type 0
  pub leq : Value → Value → Bool
  pub less : Value → Value → Bool
  pub equal : Value → Value → Bool
  pub of_int : ℤ → Value
  pub scalar : Option (String → Option Value)
  pub nodes_down : Option (Option ℤ)
  pub user_metric : String → Option (List (ℕ × Value))
  pub sess_metric : Option (String → String → Option Value)
  pub credit_teams : Option (ℕ → List TeamBalance)

-- A notice that was sent: its key, the rule, the team for a rule on the balance of teams, and the name
-- of the target.
pub record Firing : Type 0 where
  pub key : String
  pub at : ℕ
  pub rule : Rule
  pub team : Option ℕ
  pub target : String

pub record Engine : Type 0 where
  pub last_fired : List (String × ℕ)
  pub journal : List Firing

-- 10 minutes.
abbrev pub cooldown : ℕ
cooldown = 600000000000

abbrev bar : String → String → String
bar a b = append a (append "|" b)

abbrev scope_text : Scope → String
scope_text user = "user"
scope_text admin = "admin"

unfoldable pub rule_key : Rule → String → String
rule_key r extra = bar (scope_text r.scope) (
    bar (decimal r.owner_id)
      (bar r.metric (bar r.op (bar (decimal_ℤ r.value) (bar r.target extra)))))

-- The key of a rule, for a team or for none.
abbrev pub alarm_key : Rule → Option ℕ → String
alarm_key r none = rule_key r ""
alarm_key r (some g) = rule_key r (decimal g)

abbrev pub entry_of : String → List (String × ℕ) → Option ℕ
entry_of key [] = none
entry_of key (e ∷ es) = if str_eq e.0 key then some e.1 else entry_of key es

-- cooling: true within the cooldown, and else the time is stamped.
pub cooling : ℕ → String → Engine → Bool × Engine
cooling now key e = elim (entry_of key e.last_fired) [
  | none ↦ (false, record e { last_fired = (key, now) ∷ e.last_fired })
  | some last ↦
      if ltb (now - last) cooldown
      then (true, e)
      else (false, record e { last_fired = (key, now) ∷ e.last_fired })
]

-- `if e.cooling(key) { continue }`, and the notice.
pub alarm : ℕ → Rule → Option ℕ → String → Engine → Engine
unfolding cooling
alarm now r team target e =
    let (hot, e') = cooling now (alarm_key r team) e in
    if hot then e' else record e' {
      journal =
          record { key = alarm_key r team; at = now; rule = r; team = team; target = target }
          ∷ e'.journal;
    }

module _ (env : Env) where
  unfoldable pub breached : String → env.Value → env.Value → Bool
  breached op v threshold =
      if str_eq op "gte"
      then env.leq threshold v
      else if str_eq op "gt"
      then env.less threshold v
      else if str_eq op "lte"
      then env.leq v threshold
      else if str_eq op "lt"
      then env.less v threshold
      else if str_eq op "eq"
      then env.equal v threshold
      else false

  -- The query of a metric that Prometheus answers.
  abbrev query_of : String → Option String
  query_of metric =
      if str_eq metric "disk_usage"
      then some
          "max((node_filesystem_size_bytes{mountpoint=\"/\"} - node_filesystem_avail_bytes{mountpoint=\"/\"}) / node_filesystem_size_bytes{mountpoint=\"/\"} * 100)"
      else if str_eq metric "gpu_util"
      then some "avg(DCGM_FI_DEV_GPU_UTIL)"
      else if str_eq metric "gpu_temp"
      then some "max(DCGM_FI_DEV_GPU_TEMP)"
      else if str_eq metric "node_idle"
      then some "min(avg by(Hostname)(DCGM_FI_DEV_GPU_UTIL))"
      else if str_eq metric "capacity"
      then some "count(DCGM_FI_DEV_GPU_UTIL > 0) / count(DCGM_FI_DEV_GPU_UTIL) * 100"
      else if str_eq metric "volume_usage"
      then some "max(kubelet_volume_stats_used_bytes / kubelet_volume_stats_capacity_bytes) * 100"
      else none

  abbrev int_value : Option ℤ → Option env.Value
  int_value none = none
  int_value (some n) = some (env.of_int n)

  unfoldable pub eval_metric : String → Option env.Value
  eval_metric metric =
      if str_eq metric "node_down"
      then elim env.nodes_down [ none ↦ none | some n ↦ int_value n ]
      else elim (query_of metric) [
        | none ↦ none
        | some q ↦ elim env.scalar [ none ↦ none | some f ↦ f q ]
      ]

  -- A value that is there and breaks the rule.
  abbrev pub breaks : Rule → Option env.Value → Bool
  breaks r none = false
  breaks r (some v) = breached r.op v (env.of_int r.value)

  -- A rule fires where it is broken, for a team or for none, with a name of the target.
  abbrev pub fire_if : ℕ → Bool → Rule → Option ℕ → String → Engine → Engine
  fire_if now c r team target e = if c then alarm now r team target e else e

  abbrev pub due_admin : Rule → Bool
  unfolding eval_metric
  due_admin r = r.enabled && breaks r (eval_metric r.metric)

  -- The loop of tick over the rules of the administrators.
  pub admin_tick : ℕ → List Rule → Engine → Engine
  unfolding alarm
  admin_tick now [] e = e
  admin_tick now (r ∷ rs) e = admin_tick now rs (fire_if now (due_admin r) r none r.metric e)

  abbrev pub is_credit : Rule → Bool
  is_credit r = str_eq r.metric "credit_balance" && str_eq r.target ""

  -- A team in use whose balance breaks the rule.
  abbrev pub due_team : Rule → TeamBalance → Bool
  unfolding breached
  due_team r t = t.active && breached r.op (env.of_int t.balance) (env.of_int r.value)

  -- The teams of a rule on the balance.
  pub team_loop : ℕ → Rule → List TeamBalance → Engine → Engine
  unfolding alarm
  team_loop now r [] e = e
  team_loop now r (t ∷ ts) e =
      team_loop now r ts (fire_if now (due_team r t) r (some t.group_id) t.name e)

  pub credit_loop : ℕ → (ℕ → List TeamBalance) → List Rule → Engine → Engine
  unfolding team_loop
  credit_loop now teams [] e = e
  credit_loop now teams (r ∷ rs) e = credit_loop now teams rs (team_loop now r (teams r.owner_id) e)

  pub credit_tick : ℕ → List Rule → Engine → Engine
  unfolding credit_loop
  credit_tick now rules e = elim env.credit_teams [
    | none ↦ e
    | some teams ↦ credit_loop now teams (select_where is_credit rules) e
  ]

  abbrev value_of : ℕ → List (ℕ × env.Value) → Option env.Value
  value_of u [] = none
  value_of u (p ∷ ps) = if p.0 == u then some p.1 else value_of u ps

  -- The map `cache` with `ok`: what a metric was evaluated to.
  abbrev pub Cache : Type 0
  Cache = List (String × Option (List (ℕ × env.Value)))

  abbrev pub cached : String → Cache → Option (Option (List (ℕ × env.Value)))
  cached metric [] = none
  cached metric (c ∷ cs) = if str_eq c.0 metric then some c.1 else cached metric cs

  -- The evaluation of a metric through the cache.
  abbrev pub look : String → Cache → Option (List (ℕ × env.Value)) × Cache
  look metric cache = elim (cached metric cache) [
    | some vals ↦ (vals, cache)
    | none ↦ (env.user_metric metric, (metric, env.user_metric metric) ∷ cache)
  ]

  abbrev pub user_value : ℕ → Option (List (ℕ × env.Value)) → Option env.Value
  user_value u none = none
  user_value u (some vals) = value_of u vals

  abbrev pub sess_value : Rule → Option env.Value
  sess_value r = elim env.sess_metric [ none ↦ none | some f ↦ f r.target r.metric ]

  -- The turn of a rule in userTick.
  pub user_rule : ℕ → Rule → Cache → Engine → Cache × Engine
  unfolding alarm
  user_rule now r cache e =
      let (vals, cache') = look r.metric cache in
      if is_credit r
      then (cache, e)
      else if str_eq r.target ""
      then (cache', fire_if now (breaks r (user_value r.owner_id vals)) r none r.target e)
      else (cache, fire_if now (breaks r (sess_value r)) r none r.target e)

  pub user_loop : ℕ → List Rule → Cache → Engine → Cache × Engine
  unfolding user_rule
  user_loop now [] cache e = (cache, e)
  user_loop now (r ∷ rs) cache e =
      let (cache', e') = user_rule now r cache e in user_loop now rs cache' e'

  -- userTick, where user alerts are on; `rules` are those that EnabledUserRules gives.
  pub user_tick : ℕ → List Rule → Engine → Engine
  unfolding credit_tick user_loop
  user_tick now rules e = (user_loop now rules [] (credit_tick now rules e)).1

  -- tick; a query that fails is `none` and, for the administrators, ends the tick.
  pub tick : ℕ → Bool → Option (List Rule) → Option (List Rule) → Engine → Engine
  unfolding admin_tick user_tick
  tick now user_alerts admin_rules user_rules e = elim admin_rules [
    | none ↦ e
    | some rs ↦
        let e' = admin_tick now rs e in
        if user_alerts then elim user_rules [ none ↦ e' | some us ↦ user_tick now us e' ] else e'
  ]
