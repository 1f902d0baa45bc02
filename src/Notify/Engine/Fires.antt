-- ===== src/Notify/Engine/Fires.antt =====
-- Which rules of the administrators fire in a tick.
use giosk.Prelude.{
  ℕ, ◌≤◌, ◌≡◌, refl, sym, subst, ◌∙◌, inl, inr, Bool, true, false, Bool-cases, Option, none, some,
  List, [], ◌∷◌, ◌++◌, String, str_eq, All, Elem,
}
use giosk.Notify.Engine.{
  Rule, Firing, Env, Engine, rule_key, alarm_key, cooling, alarm, fire_if, due_admin, admin_tick,
  tick,
}
use giosk.Notify.Engine.Cooldown.{recent, Inv, alarm-Inv, cooling-recent, cooling-journal}
use giosk.Notify.Engine.Ticks.{Run, Run-Inv, later-Inv, admin_tick-keeps, user_part-keeps}
use giosk.Notify.Engine.Content.{admin_tick-append}

-- What has been sent stays in the journal.
alarm-Elem :
    (f : Firing) (now : ℕ) (r : Rule) (team : Option ℕ) (target : String) (e : Engine)
    → Elem f e.journal
    → Elem f (alarm now r team target e).journal
unfolding alarm
alarm-Elem f now r team target e h =
    let key = alarm_key r team in
    elim (Bool-cases ((cooling now key e).0)) [
      | inl hot ↦ rw (hot, cooling-journal now key e) h
      | inr cold ↦ rw (cold, cooling-journal now key e) (inr h)
    ]

-- An alarm under another key is none under this one.
alarm-other :
    (key : String) (now : ℕ) (r : Rule) (team : Option ℕ) (target : String) (e : Engine)
    → str_eq (alarm_key r team) key ≡ false
    → recent key now e.journal ≡ false
    → recent key now (alarm now r team target e).journal ≡ false
unfolding alarm
alarm-other key now r team target e other quiet =
    let k = alarm_key r team in
    elim (Bool-cases ((cooling now k e).0)) [
      | inl hot ↦ rw (hot, cooling-journal now k e) quiet
      | inr cold ↦ rw (cold, cooling-journal now k e, other) quiet
    ]

-- A rule for whose key nothing is recent is sent.
alarm-sent :
    (now : ℕ) (r : Rule) (team : Option ℕ) (target : String) (e : Engine)
    → Inv now e
    → recent (alarm_key r team) now e.journal ≡ false
    → Elem
        (record { key = alarm_key r team; at = now; rule = r; team = team; target = target })
        (alarm now r team target e).journal
unfolding alarm
alarm-sent now r team target e inv quiet =
    let cold : (cooling now (alarm_key r team) e).0 ≡ false =
      cooling-recent now now (alarm_key r team) e inv ∙ quiet in
    rw cold (inl refl)

module _ (env : Env) (now : ℕ) where
  admin_tick-others :
      (key : String) (xs : List Rule) (e : Engine)
      → All (λ (x : Rule). str_eq (rule_key x "") key ≡ false) xs
      → recent key now e.journal ≡ false
      → recent key now (admin_tick env now xs e).journal ≡ false
  unfolding admin_tick
  admin_tick-others key [] e others quiet = quiet
  admin_tick-others key (x ∷ xs) e (other, others) quiet =
      admin_tick-others key xs (fire_if env now (due_admin env x) x none x.metric e) others
        (turn (due_admin env x))
    where
      turn : (c : Bool) → recent key now (fire_if env now c x none x.metric e).journal ≡ false
      turn true = alarm-other key now x none x.metric e other quiet
      turn false = quiet

  -- The notice of a rule of the administrators in this tick.
  abbrev pub notice_of : Rule → Firing
  notice_of r = record { key = rule_key r ""; at = now; rule = r; team = none; target = r.metric }

  admin_tick-sends :
      (xs ys : List Rule) (r : Rule) (e : Engine)
      → Inv now e
      → due_admin env r ≡ true
      → All (λ (x : Rule). str_eq (rule_key x "") (rule_key r "") ≡ false) xs
      → recent (rule_key r "") now e.journal ≡ false
      → Elem (notice_of r) (admin_tick env now (xs ++ r ∷ ys) e).journal
  unfolding admin_tick
  admin_tick-sends xs ys r e inv broken others quiet =
      subst (λ (z : Engine). Elem (notice_of r) z.journal)
        (sym (admin_tick-append env now xs (r ∷ ys) e))
        (admin_tick-keeps env now (λ z. Elem (notice_of r) z.journal) (alarm-Elem (notice_of r) now)
          ys (fire_if env now (due_admin env r) r none r.metric e')
          (rw broken (
            alarm-sent now r none r.metric e'
              (admin_tick-keeps env now (Inv now) (alarm-Inv now) xs e inv)
              (admin_tick-others (rule_key r "") xs e others quiet))))
    where
      e' : Engine
      e' = admin_tick env now xs e

-- In a tick that reads the rules, every enabled rule of the administrators that is broken fires
-- itself, now, with a notice that names it and so its channel, where no rule before it in the
-- list has its key and nothing was sent under its key within the cooldown; the key is made of
-- the rule's scope, owner, metric, operator, value and target, and leaves out the channel.
pub Run-fires :
    {t : ℕ} {e : Engine}
    → Run t e
    → (env : Env) (now : ℕ) (user_alerts : Bool) (xs ys : List Rule)
      (user_rules : Option (List Rule)) (r : Rule)
    → t ≤ now
    → due_admin env r ≡ true
    → All (λ (x : Rule). str_eq (rule_key x "") (rule_key r "") ≡ false) xs
    → recent (rule_key r "") now e.journal ≡ false
    → Elem
        (notice_of env now r)
        (tick env now user_alerts (some (xs ++ r ∷ ys)) user_rules e).journal
unfolding tick
Run-fires {t} {e} run env now user_alerts xs ys user_rules r after broken others quiet =
    user_part-keeps env now (λ z. Elem (notice_of env now r) z.journal)
      (alarm-Elem (notice_of env now r) now) user_alerts user_rules
      (admin_tick env now (xs ++ r ∷ ys) e)
      (admin_tick-sends env now xs ys r e (later-Inv t now e after (Run-Inv run)) broken others
        quiet)
