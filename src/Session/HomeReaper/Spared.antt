-- ===== src/Session/HomeReaper/Spared.antt =====
-- The newest stopped session of a user is spared.
use giosk.Prelude.{
  ℕ, ◌+◌, ◌-◌, ◌≤◌, ◌≡◌, ◌≢◌, refl, sym, subst, ◌∙◌, inl, inr, Bool, true, false, Option, none,
  some, List, [], ◌∷◌, String, str_eq, eq_iff, ltb, ◌==◌, if◌then◌else◌, arith, All, Elem,
  Bool-cases,
}
use giosk.Session.HomeReaper.{
  Stopped, Keep, kept_of, stopped_profile, ttl_of, spared, expired, reap_from, reap_stale_homes,
}
use giosk.Session.HomeReaper.Profile.{Sound, profile_from-Covers, profile_from-Sound}

-- A session that is reclaimed has been stopped for the lifetime, and its user keeps another session in
-- the list, which was stopped at the same time or later.
abbrev pub Reclaimed : ℕ → ℕ → List Stopped → Stopped → Type 0
Reclaimed days now rows r =
    (t : ℕ) × ((r.stopped_since ≡ some t)
      × ((t + ttl_of days ≤ now)
          × ((k : Stopped) × (Elem k rows
                × ((k.user_id ≡ r.user_id)
                    × ((k.instance_id ≢ r.instance_id)
                        × ((s : ℕ) × ((k.stopped_since ≡ some s) × (t ≤ s)))))))))

is_old :
    (days now : ℕ) (r : Stopped)
    → expired days now r ≡ true
    → (t : ℕ) × ((r.stopped_since ≡ some t) × (ltb (now - t) (ttl_of days) ≡ false))
unfolding expired
is_old days now r h = by_since r.stopped_since refl h
  where
    by_since :
        (o : Option ℕ)
        → r.stopped_since ≡ o
        → (elim o as (λ _. Bool) [
          | none ↦ false
          | some t ↦ if ltb (now - t) (ttl_of days) then false else true
        ])
          ≡ true
        → (t : ℕ) × ((r.stopped_since ≡ some t) × (ltb (now - t) (ttl_of days) ≡ false))
    by_since none e old = ground (arith, old)
    by_since (some t) e old = (t, (e, ground (arith, old)))

is_other :
    (ks : Keep) (r : Stopped) (e : String × ℕ)
    → kept_of r.user_id ks ≡ some e
    → spared ks r ≡ false
    → str_eq e.0 r.instance_id ≡ false
unfolding spared
is_other ks r e h loose =
    subst
      (λ (o : Option (String × ℕ)).
        (elim o as (λ _. Bool) [ none ↦ false | some e ↦ str_eq e.0 r.instance_id ]) ≡ false)
      h loose

long_ago : (days now t : ℕ) → days ≢ 0 → ltb (now - t) (ttl_of days) ≡ false → t + ttl_of days ≤ now
long_ago days now t some_days h = ground (arith, some_days, h)

apart : (a b : String) → str_eq a b ≡ false → b ≢ a
apart a b h e = ground (arith, eq_iff a b, h, e)

module _ (days now : ℕ) (rows : List Stopped) where
  abbrev ks : Keep
  unfolding stopped_profile
  ks = stopped_profile rows

  reclaimed :
      (r : Stopped)
      → days ≢ 0
      → Elem r rows
      → expired days now r ≡ true
      → spared ks r ≡ false
      → Reclaimed days now rows r
  unfolding stopped_profile kept_of
  reclaimed r some_days m old loose =
      let (t, (since, late)) = is_old days now r old in
      let (e, (h, newer)) = profile_from-Covers rows r t [] m since in
      let (k, (here, (same, (named, at)))) =
        profile_from-Sound rows rs_all [] inside nothing r.user_id e h in
      (
        t,
        (
          since,
          (
            long_ago days now t some_days late,
            (
              k,
              (
                here,
                (
                  same,
                  (
                    λ q. apart e.0 r.instance_id (is_other ks r e h loose) (sym q ∙ named),
                    (e.1, (at, newer)),
                  ),
                ),
              ),
            ),
          ),
        ),
      )
    where
      rs_all : List Stopped
      rs_all = rows

      inside : (x : Stopped) → Elem x rows → Elem x rows
      inside x m = m

      nothing : Sound rows []
      nothing u e h = ground (arith, h)

  reap_from-Reclaimed :
      (rs : List Stopped)
      → ((r : Stopped) → Elem r rs → Elem r rows)
      → days ≢ 0
      → All (Reclaimed days now rows) (reap_from ks days now rs)
  unfolding reap_from
  reap_from-Reclaimed [] inside some_days = tt
  reap_from-Reclaimed (r ∷ rs) inside some_days =
      let rest = reap_from-Reclaimed rs (λ x m. inside x (inr m)) some_days in
      elim (Bool-cases (expired days now r)) [
        | inr young ↦ rw young rest
        | inl old ↦ elim (Bool-cases (spared ks r)) [
          | inl newest ↦ rw (old, newest) rest
          | inr loose ↦
              rw (old, loose) (reclaimed r some_days (inside r (inl refl)) old loose, rest)
        ]
      ]

  -- A session whose deletion the reaper asks for has been stopped for at least the lifetime, and its user has
  -- another session in the list that was stopped at the same time or later: no user loses the newest.
  pub reap_stale_homes-Reclaimed : All (Reclaimed days now rows) (reap_stale_homes days now rows)
  unfolding reap_stale_homes stopped_profile
  reap_stale_homes-Reclaimed = elim (Bool-cases (days == 0)) [
    | inl off ↦ rw off tt
    | inr on ↦ rw on (reap_from-Reclaimed rows (λ r m. m) (ground (arith, on)))
  ]
