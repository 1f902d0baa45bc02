-- ===== src/Notify/Tests.antt =====
-- Two ticks of an engine with a rule on the temperature, and a rule of a user on the budget.
use giosk.Prelude.{
  ◌≡◌, refl, Elem, true, false, none, some, [], ◌∷◌, ℤ, pos, ltb_ℤ, leb_ℤ, ◌&&◌, arith,
}
use giosk.Notify.Engine.{
  Scope, Rule, Env, Engine, rule_key, cooling, tick, credit_tick, user_tick, eval_metric, breached,
}
use giosk.Notify.Engine.Cooldown.{recent}
use giosk.Prelude.Text.{decimal, decimal_ℤ, decimal_from}
use giosk.Notify.Engine.Content.{Apart, Run-Apart}
use giosk.Notify.Engine.Ticks.{Run, started, ticked, Run-cooling}
use giosk.Notify.Engine.Fires.{notice_of, Run-fires}
use giosk.Notify.Engine.Direct.{direct_loop, user_tick-direct}

abbrev hot : Rule
hot = record {
  scope = Scope.admin;
  owner_id = 0;
  metric = "gpu_temp";
  op = "gte";
  value = pos 82;
  channel = "webhook";
  enabled = true;
  target = "";
}

abbrev spent : Rule
spent = record {
  scope = Scope.user;
  owner_id = 1;
  metric = "budget_pct";
  op = "gte";
  value = pos 80;
  channel = "email";
  enabled = true;
  target = "";
}

abbrev idle : Rule
idle = record hot { metric = "node_idle" }

abbrev metrics : Env
metrics = record {
  Value = ℤ;
  leq = leb_ℤ;
  less = ltb_ℤ;
  equal = λ a b. leb_ℤ a b && leb_ℤ b a;
  of_int = λ n. n;
  scalar = some (λ q. some (pos 90));
  nodes_down = none;
  user_metric = λ m. some ((1, pos 95) ∷ []);
  sess_metric = none;
  credit_teams = none;
}

abbrev fresh : Engine
fresh = record { last_fired = []; journal = [] }

abbrev once : Engine
once = tick metrics 1 true (some (hot ∷ [])) (some (spent ∷ spent ∷ [])) fresh

abbrev twice : Engine
twice = tick metrics 600000000001 true (some (hot ∷ [])) none once

run : Run 600000000001 twice
run =
    ticked
      (ticked started metrics 1 true (some (hot ∷ [])) (some (spent ∷ spent ∷ [])) (ground arith))
      metrics 600000000001 true (some (hot ∷ [])) none (ground arith)

Run-Apart_example : Apart twice.journal
Run-Apart_example = Run-Apart run

Run-cooling_example :
    (cooling 600000000005 (rule_key hot "") twice).0
    ≡ recent (rule_key hot "") 600000000005 twice.journal
Run-cooling_example = Run-cooling run 600000000005 (rule_key hot "")

Run-fires_example :
    Elem
      (notice_of metrics 1300000000000 hot)
      (tick metrics 1300000000000 false (some (idle ∷ hot ∷ [])) none fresh).journal
unfolding eval_metric breached rule_key decimal decimal_ℤ decimal_from
Run-fires_example =
    Run-fires started metrics 1300000000000 false (idle ∷ []) [] none hot (ground arith) refl
      (refl, tt) refl

user_tick-direct_example :
    user_tick metrics 1 (spent ∷ spent ∷ []) fresh
    ≡ direct_loop metrics 1 (spent ∷ spent ∷ []) (credit_tick metrics 1 (spent ∷ spent ∷ []) fresh)
user_tick-direct_example = user_tick-direct metrics 1 (spent ∷ spent ∷ []) fresh
