-- ===== src/Notify/Engine/Ticks.antt =====
-- What ticks do to the journal, over all ticks of an engine.
use giosk.Prelude.{
  ℕ, ◌≤◌, ◌≡◌, refl, subst, inl, inr, Bool, true, false, Option, none, some, List, [], ◌∷◌, String,
  str_eq, arith, Bool-cases, All-map, Elem, select_where, if◌then◌else◌,
}
use giosk.Notify.Engine.{
  Rule, TeamBalance, Env, Engine, rule_key, cooling, alarm, fire_if, breaks, due_admin, is_credit,
  admin_tick, team_loop, credit_loop, credit_tick, due_team, Cache, look, user_value, sess_value,
  user_rule, user_loop, user_tick, tick,
}
use giosk.Notify.Engine.Cooldown.{recent, Inv, cooling-recent, alarm-Inv, alarm-recent, alarm-keeps}

-- What an alarm keeps, a tick keeps.
module _ (env : Env) (now : ℕ) (P : Engine → Type 0)
    (kept : (r : Rule) (team : Option ℕ) (target : String) (e : Engine)
      → P e
      → P (alarm now r team target e)) where
  pub fire_if-keeps :
      (c : Bool) (r : Rule) (team : Option ℕ) (target : String) (e : Engine)
      → P e
      → P (fire_if env now c r team target e)
  fire_if-keeps true r team target e p = kept r team target e p
  fire_if-keeps false r team target e p = p

  pub admin_tick-keeps : (rs : List Rule) (e : Engine) → P e → P (admin_tick env now rs e)
  unfolding admin_tick
  admin_tick-keeps [] e p = p
  admin_tick-keeps (r ∷ rs) e p =
      admin_tick-keeps rs (fire_if env now (due_admin env r) r none r.metric e)
        (fire_if-keeps (due_admin env r) r none r.metric e p)

  team_loop-keeps :
      (r : Rule) (ts : List TeamBalance) (e : Engine) → P e → P (team_loop env now r ts e)
  unfolding team_loop
  team_loop-keeps r [] e p = p
  team_loop-keeps r (t ∷ ts) e p =
      team_loop-keeps r ts (fire_if env now (due_team env r t) r (some t.group_id) t.name e)
        (fire_if-keeps (due_team env r t) r (some t.group_id) t.name e p)

  credit_loop-keeps :
      (teams : ℕ → List TeamBalance) (rs : List Rule) (e : Engine)
      → P e
      → P (credit_loop env now teams rs e)
  unfolding credit_loop
  credit_loop-keeps teams [] e p = p
  credit_loop-keeps teams (r ∷ rs) e p =
      credit_loop-keeps teams rs (team_loop env now r (teams r.owner_id) e)
        (team_loop-keeps r (teams r.owner_id) e p)

  credit_tick-keeps : (rs : List Rule) (e : Engine) → P e → P (credit_tick env now rs e)
  unfolding credit_tick
  credit_tick-keeps rs e p = by_teams env.credit_teams
    where
      by_teams :
          (o : Option (ℕ → List TeamBalance))
          → P (elim o as (λ _. Engine) [
            | none ↦ e
            | some teams ↦ credit_loop env now teams (select_where (is_credit env) rs) e
          ])
      by_teams none = p
      by_teams (some teams) = credit_loop-keeps teams (select_where (is_credit env) rs) e p

  user_rule-keeps :
      (r : Rule) (cache : Cache env) (e : Engine) → P e → P ((user_rule env now r cache e).1)
  unfolding user_rule
  user_rule-keeps r cache e p = elim (Bool-cases (is_credit env r)) [
    | inl credit ↦ rw credit p
    | inr other ↦ rw other (elim (Bool-cases (str_eq r.target "")) [
      | inl whole ↦ rw whole (
          fire_if-keeps (breaks env r (user_value env r.owner_id ((look env r.metric cache).0))) r
            none r.target e p)
      | inr one ↦ rw one (fire_if-keeps (breaks env r (sess_value env r)) r none r.target e p)
    ])
  ]

  user_loop-keeps :
      (rs : List Rule) (cache : Cache env) (e : Engine) → P e → P ((user_loop env now rs cache e).1)
  unfolding user_loop
  user_loop-keeps [] cache e p = p
  user_loop-keeps (r ∷ rs) cache e p =
      user_loop-keeps rs ((user_rule env now r cache e).0) ((user_rule env now r cache e).1)
        (user_rule-keeps r cache e p)

  pub user_part-keeps :
      (user_alerts : Bool) (us : Option (List Rule)) (e : Engine)
      → P e
      → P (if user_alerts then elim us [ none ↦ e | some rs ↦ user_tick env now rs e ] else e)
  unfolding user_tick
  user_part-keeps false us e p = p
  user_part-keeps true none e p = p
  user_part-keeps true (some rs) e p =
      user_loop-keeps rs [] (credit_tick env now rs e) (credit_tick-keeps rs e p)

  tick-keeps :
      (user_alerts : Bool) (admin_rules user_rules : Option (List Rule)) (e : Engine)
      → P e
      → P (tick env now user_alerts admin_rules user_rules e)
  unfolding tick
  tick-keeps user_alerts none us e p = p
  tick-keeps user_alerts (some rs) us e p =
      user_part-keeps user_alerts us (admin_tick env now rs e) (admin_tick-keeps rs e p)

module _ (env : Env) (now : ℕ) where
  pub admin_tick-fires :
      (rs : List Rule) (r : Rule) (e : Engine)
      → Inv now e
      → Elem r rs
      → due_admin env r ≡ true
      → recent (rule_key r "") now (admin_tick env now rs e).journal ≡ true
  unfolding admin_tick
  admin_tick-fires [] r e inv listed broken = elim listed [ ]
  admin_tick-fires (x ∷ rs) r e inv (inr there) broken =
      admin_tick-fires rs r (fire_if env now (due_admin env x) x none x.metric e)
        (fire_if-keeps env now (Inv now) (alarm-Inv now) (due_admin env x) x none x.metric e inv)
        there broken
  admin_tick-fires (x ∷ rs) r e inv (inl same) broken =
      subst
        (λ (y : Rule).
          recent (rule_key r "") now
            (admin_tick env now rs (fire_if env now (due_admin env y) y none y.metric e)).journal
          ≡ true)
        same
        (admin_tick-keeps env now (λ e. recent (rule_key r "") now e.journal ≡ true)
          (λ r' team target e p. alarm-keeps now (rule_key r "") r' team target e p) rs
          (fire_if env now (due_admin env r) r none r.metric e)
          (rw broken (alarm-recent now r none r.metric e inv)))

-- An engine that has ticked, the last time at the time given; a tick is not before the last one.
pub data Run : ℕ → Engine → Type 1 where
  started : Run 0 (record { last_fired = []; journal = [] })
  ticked :
      {t : ℕ} {e : Engine}
      → Run t e
      → (env : Env) (now : ℕ) (user_alerts : Bool) (admin_rules user_rules : Option (List Rule))
      → t ≤ now
      → Run now (tick env now user_alerts admin_rules user_rules e)

pub later-Inv : (t now : ℕ) (e : Engine) → t ≤ now → Inv t e → Inv now e
later-Inv t now e after (spaced, agrees, past, keyed) =
    (spaced, agrees, All-map e.journal (λ f k. omega (arith, k, after)) past, keyed)

pub Run-Inv : {t : ℕ} {e : Engine} → Run t e → Inv t e
Run-Inv started = (tt, (λ k. refl), tt, tt)
Run-Inv (ticked {t} {e} run env now user_alerts admin_rules user_rules after) =
    tick-keeps env now (Inv now) (alarm-Inv now) user_alerts admin_rules user_rules e
      (later-Inv t now e after (Run-Inv run))

-- The map of last firings implements the history: after any ticks, a key is held back exactly where
-- a firing of it in the whole history lies within the cooldown.
pub Run-cooling :
    {t : ℕ} {e : Engine}
    → Run t e
    → (now : ℕ) (key : String) → (cooling now key e).0 ≡ recent key now e.journal
Run-cooling {t} {e} run now key = cooling-recent now t key e (Run-Inv run)
