-- ===== src/Notify/Engine/Cooldown.antt =====
-- The map of the last firings against the journal of all of them.
use giosk.Prelude.{
  ℕ, ◌+◌, ◌-◌, ◌≤◌, ◌≡◌, refl, sym, ap, ◌∙◌, inl, inr, Bool, true, false, ◌&&◌, Option, none, some,
  List, [], ◌∷◌, String, str_eq, eq_iff, arith, Bool-cases, All, All-map, ltb, if◌then◌else◌,
  any_where,
}
use giosk.Notify.Engine.{Firing, Engine, Rule, cooldown, alarm_key, entry_of, cooling, alarm}

-- Two firings of a key are at least the cooldown apart.
abbrev pub Spaced : List Firing → Type 0
Spaced [] = Unit
Spaced (f ∷ fs) =
    All (λ (g : Firing). str_eq g.key f.key ≡ true → g.at + cooldown ≤ f.at) fs × Spaced fs

abbrev latest : String → List Firing → Option ℕ
latest key [] = none
latest key (f ∷ fs) = if str_eq f.key key then some f.at else latest key fs

-- A firing of the key within the cooldown before `now`.
abbrev pub recent : String → ℕ → List Firing → Bool
recent key now fs = any_where (λ (f : Firing). str_eq f.key key && ltb (now - f.at) cooldown) fs

abbrev pub Inv : ℕ → Engine → Type 0
Inv now e =
    Spaced e.journal
    × ((key : String) → entry_of key e.last_fired ≡ latest key e.journal)
    × All (λ (f : Firing). f.at ≤ now) e.journal
    × All (λ (f : Firing). f.key ≡ alarm_key f.rule f.team) e.journal

same_key : (a b c : String) → str_eq a c ≡ true → str_eq b c ≡ true → str_eq a b ≡ true
same_key a b c h k = (eq_iff a b).1 ((eq_iff a c).0 h ∙ sym ((eq_iff b c).0 k))

Before : String → ℕ → List Firing → Type 0
Before key now fs = All (λ (g : Firing). str_eq g.key key ≡ true → g.at + cooldown ≤ now) fs

none-Before : (key : String) (now : ℕ) (fs : List Firing) → latest key fs ≡ none → Before key now fs
unfolding Before
none-Before key now [] h = tt
none-Before key now (f ∷ fs) h =
    ((λ k. ground (arith, h, k)), none-Before key now fs (ground (arith, h)))

some-Before :
    (key : String) (now last : ℕ) (fs : List Firing)
    → Spaced fs
    → latest key fs ≡ some last
    → last + cooldown ≤ now
    → Before key now fs
unfolding Before
some-Before key now last [] spaced h apart = tt
some-Before key now last (f ∷ fs) (first, spaced) h apart = elim (Bool-cases (str_eq f.key key)) [
  | inr other ↦ (
    (λ k. ground (arith, other, k)),
    some-Before key now last fs spaced (ground (arith, h, other)) apart,
  )
  | inl own ↦
      let same : f.at ≡ last = ground (arith, h, own) in
      (
        (λ k. omega (arith, same, apart)),
        All-map fs (λ g early k. omega (arith, early (same_key g.key f.key key k own), same, apart))
            first,
      )
]

older-recent :
    (key : String) (now : ℕ) (f : Firing)
    → str_eq f.key key ≡ true
    → ltb (now - f.at) cooldown ≡ false
    → (gs : List Firing)
    → All (λ (g : Firing). str_eq g.key f.key ≡ true → g.at + cooldown ≤ f.at) gs
    → recent key now gs ≡ false
older-recent key now f own cold [] h = refl
older-recent key now f own cold (g ∷ gs) (early, rest) = elim (Bool-cases (str_eq g.key key)) [
  | inr other ↦ rw other (older-recent key now f own cold gs rest)
  | inl mine ↦
      let apart : ltb (now - g.at) cooldown ≡ false =
        ground (arith, early (same_key g.key f.key key mine own), cold) in
      rw (mine, apart) (older-recent key now f own cold gs rest)
]

-- What is newest is what was recent, if anything was.
recent-latest :
    (key : String) (now : ℕ) (fs : List Firing)
    → Spaced fs
    → recent key now fs
      ≡ elim (latest key fs) [ none ↦ false | some last ↦ ltb (now - last) cooldown ]
recent-latest key now [] spaced = refl
recent-latest key now (f ∷ fs) (first, spaced) = elim (Bool-cases (str_eq f.key key)) [
  | inr other ↦ rw other (recent-latest key now fs spaced)
  | inl own ↦ rw own (elim (Bool-cases (ltb (now - f.at) cooldown)) [
    | inl hot ↦ rw hot refl
    | inr cold ↦ rw cold (older-recent key now f own cold fs first)
  ])
]

-- `cooling` answers from the map what the journal says: that the key has fired within the cooldown.
pub cooling-recent :
    (now t : ℕ) (key : String) (e : Engine)
    → Inv t e
    → (cooling now key e).0 ≡ recent key now e.journal
unfolding cooling
cooling-recent now t key e (spaced, agrees, past, keyed) =
    by_entry (entry_of key e.last_fired)
    ∙ ap within (agrees key)
    ∙ sym (recent-latest key now e.journal spaced)
  where
    within : Option ℕ → Bool
    within o = elim o [ none ↦ false | some last ↦ ltb (now - last) cooldown ]

    stamped : Engine
    stamped = record e { last_fired = (key, now) ∷ e.last_fired }

    by_entry :
        (o : Option ℕ)
        → (elim o as (λ _. Bool × Engine) [
          | none ↦ (false, stamped)
          | some last ↦ if ltb (now - last) cooldown then (true, e) else (false, stamped)
        ]).0
          ≡ elim o [ none ↦ false | some last ↦ ltb (now - last) cooldown ]
    by_entry none = refl
    by_entry (some last) = elim (Bool-cases (ltb (now - last) cooldown)) [
      | inl hot ↦ rw hot refl
      | inr cold ↦ rw cold refl
    ]

pub alarm-Inv :
    (now : ℕ) (r : Rule) (team : Option ℕ) (target : String) (e : Engine)
    → Inv now e
    → Inv now (alarm now r team target e)
unfolding alarm cooling Before
alarm-Inv now r team target e (spaced, agrees, past, keyed) =
    by_entry (entry_of (alarm_key r team) e.last_fired) refl
  where
    key : String
    key = alarm_key r team

    stamped : Engine
    stamped = record e { last_fired = (key, now) ∷ e.last_fired }

    fired : Engine
    fired = record stamped {
      journal = record { key = key; at = now; rule = r; team = team; target = target } ∷ e.journal;
    }

    fired-Inv : Before key now e.journal → Inv now fired
    fired-Inv apart = (
      (apart, spaced),
      (λ k. ap (λ (o : Option ℕ). if str_eq key k then some now else o) (agrees k)),
      (omega arith, past),
      (refl, keyed),
    )

    by_entry :
        (o : Option ℕ)
        → entry_of key e.last_fired ≡ o
        → Inv now (
            let (hot, e') = elim o as (λ _. Bool × Engine) [
              | none ↦ (false, stamped)
              | some last ↦ if ltb (now - last) cooldown then (true, e) else (false, stamped)
            ] in
            if hot then e' else record e' {
              journal =
                  record { key = key; at = now; rule = r; team = team; target = target }
                  ∷ e'.journal;
            })
    by_entry none h = fired-Inv (none-Before key now e.journal (sym (agrees key) ∙ h))
    by_entry (some last) h = elim (Bool-cases (ltb (now - last) cooldown)) [
      | inl hot ↦ rw hot (spaced, agrees, past, keyed)
      | inr cold ↦ rw cold (
          fired-Inv (
            some-Before key now last e.journal spaced (sym (agrees key) ∙ h)
              (ground (arith, cold))))
    ]

pub cooling-journal :
    (now : ℕ) (key : String) (e : Engine) → (cooling now key e).1.journal ≡ e.journal
unfolding cooling
cooling-journal now key e = by_entry (entry_of key e.last_fired)
  where
    by_entry :
        (o : Option ℕ)
        → (elim o as (λ _. Bool × Engine) [
          | none ↦ (false, record e { last_fired = (key, now) ∷ e.last_fired })
          | some last ↦
              if ltb (now - last) cooldown
              then (true, e)
              else (false, record e { last_fired = (key, now) ∷ e.last_fired })
        ]).1.journal
          ≡ e.journal
    by_entry none = refl
    by_entry (some last) = elim (Bool-cases (ltb (now - last) cooldown)) [
      | inl hot ↦ rw hot refl
      | inr cold ↦ rw cold refl
    ]

-- Whether the alarm is sent or held back, its key has now fired within the cooldown.
pub alarm-recent :
    (now : ℕ) (r : Rule) (team : Option ℕ) (target : String) (e : Engine)
    → Inv now e
    → recent (alarm_key r team) now (alarm now r team target e).journal ≡ true
unfolding alarm
alarm-recent now r team target e inv =
    let key = alarm_key r team in
    elim (Bool-cases ((cooling now key e).0)) [
      | inl hot ↦ rw hot (
          ap (recent key now) (cooling-journal now key e)
          ∙ sym (cooling-recent now now key e inv)
          ∙ hot)
      | inr cold ↦ rw cold (ground (arith, (eq_iff key key).1 refl))
    ]

-- A key that has fired within the cooldown is not forgotten by another alarm.
pub alarm-keeps :
    (now : ℕ) (key : String) (r : Rule) (team : Option ℕ) (target : String) (e : Engine)
    → recent key now e.journal ≡ true
    → recent key now (alarm now r team target e).journal ≡ true
unfolding alarm
alarm-keeps now key r team target e h =
    let k = alarm_key r team in
    elim (Bool-cases ((cooling now k e).0)) [
      | inl hot ↦ rw hot (ap (recent key now) (cooling-journal now k e) ∙ h)
      | inr cold ↦ rw (cold, cooling-journal now k e) (ground (arith, h))
    ]

cooling-hot :
    (now : ℕ) (key : String) (e : Engine) → (cooling now key e).0 ≡ true → (cooling now key e).1 ≡ e
unfolding cooling
cooling-hot now key e = by_entry (entry_of key e.last_fired)
  where
    by_entry :
        (o : Option ℕ)
        → let p = elim o as (λ _. Bool × Engine) [
          | none ↦ (false, record e { last_fired = (key, now) ∷ e.last_fired })
          | some last ↦
              if ltb (now - last) cooldown
              then (true, e)
              else (false, record e { last_fired = (key, now) ∷ e.last_fired })
        ] in
          p.0 ≡ true → p.1 ≡ e
    by_entry none h = ground (arith, h)
    by_entry (some last) h = elim (Bool-cases (ltb (now - last) cooldown)) [
      | inl hot ↦ rw hot refl
      | inr cold ↦ ground (arith, cold, h)
    ]

-- A key that has fired within the cooldown does not fire.
pub alarm-hot :
    (now : ℕ) (r : Rule) (team : Option ℕ) (target : String) (e : Engine)
    → Inv now e
    → recent (alarm_key r team) now e.journal ≡ true
    → alarm now r team target e ≡ e
unfolding alarm
alarm-hot now r team target e inv h =
    let key = alarm_key r team in
    let hot : (cooling now key e).0 ≡ true = cooling-recent now now key e inv ∙ h in
    rw hot (cooling-hot now key e hot)
