-- ===== src/Notify/Engine/Content.antt =====
-- What the content of a rule decides: the cooldown counts by it, whatever the channel.
use giosk.Prelude.{
  ℕ, ◌+◌, ◌≤◌, ◌≡◌, refl, sym, ap, ◌∙◌, Bool, true, false, Option, none, some, List, [], ◌∷◌, ◌++◌,
  String, eq_iff, ℤ, All, All-map2, Elem,
}
use giosk.Prelude.Text.{decimal}
use giosk.Notify.Engine.{
  Scope, Rule, Firing, Env, Engine, cooldown, rule_key, alarm_key, fire_if, due_admin, admin_tick,
}
use giosk.Notify.Engine.Cooldown.{Spaced, recent, Inv, alarm-Inv, alarm-hot}
use giosk.Notify.Engine.Ticks.{Run, Run-Inv, later-Inv, admin_tick-keeps, admin_tick-fires}

-- A rule without its channel: what it is about.
abbrev pub content : Rule → Scope × ℕ × String × String × ℤ × String
content r = (r.scope, r.owner_id, r.metric, r.op, r.value, r.target)

rule_key-content :
    (r s : Rule) (extra : String) → content r ≡ content s → rule_key r extra ≡ rule_key s extra
unfolding rule_key
rule_key-content r s extra h =
    ap
      (λ (c : Scope × ℕ × String × String × ℤ × String).
        rule_key
          (record {
            scope = c.0;
            owner_id = c.1;
            metric = c.2;
            op = c.3;
            value = c.4;
            channel = "";
            enabled = true;
            target = c.5;
          })
          extra)
      h

alarm_key-content :
    (r s : Rule) (a b : Option ℕ) → content r ≡ content s → a ≡ b → alarm_key r a ≡ alarm_key s b
alarm_key-content r s a b h k = ap (alarm_key r) k ∙ for_team b
  where
    for_team : (o : Option ℕ) → alarm_key r o ≡ alarm_key s o
    for_team none = rule_key-content r s "" h
    for_team (some g) = rule_key-content r s (decimal g) h

-- Two firings of rules with the same content, for the same team or both for none, are at least the
-- cooldown apart.
abbrev pub Apart : List Firing → Type 0
Apart [] = Unit
Apart (f ∷ fs) =
    All (λ (g : Firing). content g.rule ≡ content f.rule → g.team ≡ f.team → g.at + cooldown ≤ f.at)
      fs
    × Apart fs

Spaced-Apart :
    (fs : List Firing)
    → Spaced fs
    → All (λ (f : Firing). f.key ≡ alarm_key f.rule f.team) fs
    → Apart fs
Spaced-Apart [] spaced keyed = tt
Spaced-Apart (f ∷ fs) (first, spaced) (own, keyed) = (
  All-map2 fs
      (λ g early k same team. early (
        (eq_iff g.key f.key).1
          (k ∙ alarm_key-content g.rule f.rule g.team f.team same team ∙ sym own)))
      first keyed,
  Spaced-Apart fs spaced keyed,
)

-- Over all ticks of an engine, whatever the rules and the values are in each, two firings of
-- rules with the same scope, owner, metric, operator, value and target, for the same team or
-- both for none, are at least the cooldown apart, whatever their channels.
pub Run-Apart : {t : ℕ} {e : Engine} → Run t e → Apart e.journal
Run-Apart {t} {e} run = let inv = Run-Inv run in Spaced-Apart e.journal inv.0 inv.3

pub admin_tick-append :
    (env : Env) (now : ℕ) (xs ys : List Rule) (e : Engine)
    → admin_tick env now (xs ++ ys) e ≡ admin_tick env now ys (admin_tick env now xs e)
unfolding admin_tick
admin_tick-append env now [] ys e = refl
admin_tick-append env now (x ∷ xs) ys e =
    admin_tick-append env now xs ys (fire_if env now (due_admin env x) x none x.metric e)

-- Of two rules of the administrators that are alike but for the channel, the second never fires: where
-- the first is enabled and broken, the tick does what it does without the second.
Run-mutes :
    {t : ℕ} {e : Engine}
    → Run t e
    → (env : Env) (now : ℕ) (xs ys : List Rule) (r s : Rule) → t ≤ now
    → Elem r xs
    → due_admin env r ≡ true
    → content s ≡ content r
    → admin_tick env now (xs ++ s ∷ ys) e ≡ admin_tick env now (xs ++ ys) e
unfolding admin_tick
Run-mutes {t} {e} run env now xs ys r s after listed broken same =
    admin_tick-append env now xs (s ∷ ys) e
    ∙ ap (admin_tick env now ys) (muted (due_admin env s))
    ∙ sym (admin_tick-append env now xs ys e)
  where
    e' : Engine
    e' = admin_tick env now xs e

    inv : Inv now e
    inv = later-Inv t now e after (Run-Inv run)

    heard : recent (alarm_key s none) now e'.journal ≡ true
    heard =
        ap (λ k. recent k now e'.journal) (rule_key-content s r "" same)
        ∙ admin_tick-fires env now xs r e inv listed broken

    muted : (c : Bool) → fire_if env now c s none s.metric e' ≡ e'
    muted true =
        alarm-hot now s none s.metric e'
          (admin_tick-keeps env now (Inv now) (alarm-Inv now) xs e inv) heard
    muted false = refl
