-- ===== src/Notify/Engine/Direct.antt =====
-- The cache of a tick changes nothing but the number of queries.
use giosk.Prelude.{
  ℕ, ◌≡◌, refl, sym, ap, ◌∙◌, inl, inr, Option, none, some, List, [], ◌∷◌, String, str_eq, eq_iff,
  arith, Bool-cases, All, if◌then◌else◌,
}
use giosk.Notify.Engine.{
  Rule, Env, Engine, fire_if, breaks, is_credit, Cache, cached, look, user_value, sess_value,
  user_rule, user_loop, credit_tick, user_tick,
}

module _ (env : Env) where
  -- What the cache knows is what the metric is evaluated to.
  Correct : Cache env → Type 0
  Correct cache = All (λ c. c.1 ≡ env.user_metric c.0) cache

  cached-Correct :
      (metric : String) (cache : Cache env)
      → Correct cache
      → (vals : Option (List (ℕ × env.Value))) → cached env metric cache ≡ some vals
      → vals ≡ env.user_metric metric
  unfolding Correct
  cached-Correct metric [] h vals found = ground (arith, found)
  cached-Correct metric (c ∷ cs) (k, ks) vals found = elim (Bool-cases (str_eq c.0 metric)) [
    | inl same ↦
        let own : c.1 ≡ vals = ground (arith, same, found) in
        sym own ∙ k ∙ ap env.user_metric ((eq_iff c.0 metric).0 same)
    | inr other ↦ cached-Correct metric cs ks vals (ground (arith, other, found))
  ]

  look-Correct :
      (metric : String) (cache : Cache env)
      → Correct cache
      → ((look env metric cache).0 ≡ env.user_metric metric) × Correct ((look env metric cache).1)
  unfolding Correct
  look-Correct metric cache h = by_entry (cached env metric cache) refl
    where
      by_entry :
          (o : Option (Option (List (ℕ × env.Value))))
          → cached env metric cache ≡ o
          → let p = elim o as (λ _. Option (List (ℕ × env.Value)) × Cache env) [
            | some vals ↦ (vals, cache)
            | none ↦ (env.user_metric metric, (metric, env.user_metric metric) ∷ cache)
          ] in
            (p.0 ≡ env.user_metric metric) × All (λ c. c.1 ≡ env.user_metric c.0) p.1
      by_entry none e = (refl, (refl, h))
      by_entry (some vals) e = (cached-Correct metric cache h vals e, h)

  -- A rule that asks for its value itself.
  abbrev direct_rule : ℕ → Rule → Engine → Engine
  direct_rule now r e =
      if is_credit env r
      then e
      else if str_eq r.target ""
      then fire_if env now (breaks env r (user_value env r.owner_id (env.user_metric r.metric))) r
          none r.target e
      else fire_if env now (breaks env r (sess_value env r)) r none r.target e

  -- The loop in which every rule asks for its value itself.
  abbrev pub direct_loop : ℕ → List Rule → Engine → Engine
  direct_loop now [] e = e
  direct_loop now (r ∷ rs) e = direct_loop now rs (direct_rule now r e)

  user_rule-direct :
      (now : ℕ) (r : Rule) (cache : Cache env) (e : Engine)
      → Correct cache
      → ((user_rule env now r cache e).1 ≡ direct_rule now r e)
        × Correct ((user_rule env now r cache e).0)
  unfolding user_rule
  user_rule-direct now r cache e h = elim (Bool-cases (is_credit env r)) [
    | inl credit ↦ rw credit (refl, h)
    | inr other ↦ rw other (elim (Bool-cases (str_eq r.target "")) [
      | inl whole ↦
          let found = look-Correct r.metric cache h in
          rw whole (
            ap
                (λ vals.
                  fire_if env now (breaks env r (user_value env r.owner_id vals)) r none r.target e)
                found.0,
            found.1,
          )
      | inr one ↦ rw one (refl, h)
    ])
  ]

  user_loop-direct :
      (now : ℕ) (rs : List Rule) (cache : Cache env) (e : Engine)
      → Correct cache
      → (user_loop env now rs cache e).1 ≡ direct_loop now rs e
  unfolding user_loop
  user_loop-direct now [] cache e h = refl
  user_loop-direct now (r ∷ rs) cache e h =
      let turn = user_rule-direct now r cache e h in
      user_loop-direct now rs ((user_rule env now r cache e).0) ((user_rule env now r cache e).1)
        turn.1
      ∙ ap (direct_loop now rs) turn.0

  -- A tick over the rules of users, which evaluates each metric once, does what the tick does in which
  -- every rule evaluates its metric again, where a metric has one value in a tick.
  pub user_tick-direct :
      (now : ℕ) (rs : List Rule) (e : Engine)
      → user_tick env now rs e ≡ direct_loop now rs (credit_tick env now rs e)
  unfolding user_tick Correct
  user_tick-direct now rs e = user_loop-direct now rs [] (credit_tick env now rs e) tt
