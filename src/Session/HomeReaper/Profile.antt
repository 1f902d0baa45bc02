-- ===== src/Session/HomeReaper/Profile.antt =====
-- The profile names, for each user, a session that was stopped as late as any.
use giosk.Prelude.{
  ℕ, ◌≤◌, ◌≡◌, refl, ap, sym, subst, ◌∙◌, ◌⊎◌, inl, inr, Option, none, some, List, [], ◌∷◌, String,
  ltb, ◌==◌, arith, Elem, Bool-cases,
}
use giosk.Session.HomeReaper.{Stopped, Keep, kept_of, put, note, profile_from}

-- The entry of the user is at least as new as `t`.
abbrev pub Covers : ℕ → ℕ → Keep → Type 0
Covers u t ks = (e : String × ℕ) × ((kept_of u ks ≡ some e) × (t ≤ e.1))

-- A row that an entry stands for.
abbrev pub Names : List Stopped → ℕ → String × ℕ → Type 0
Names rows u e =
    (k : Stopped) × (Elem k rows
      × ((k.user_id ≡ u) × ((k.instance_id ≡ e.0) × (k.stopped_since ≡ some e.1))))

abbrev pub Sound : List Stopped → Keep → Type 0
Sound rows ks = (u : ℕ) (e : String × ℕ) → kept_of u ks ≡ some e → Names rows u e

put-Covers : (u : ℕ) (i : String) (t : ℕ) (ks : Keep) → Covers u t (put u i t ks)
unfolding put kept_of
put-Covers u i t [] = ((i, t), (ground arith, ground arith))
put-Covers u i t ((v, (j, s)) ∷ ks) = elim (Bool-cases (v == u)) [
  | inr other ↦ rw (other, other) (put-Covers u i t ks)
  | inl same ↦ elim (Bool-cases (ltb s t)) [
    | inl newer ↦ rw (same, newer) ((i, t), (ground arith, ground arith))
    | inr older ↦ rw (same, older) ((j, s), (ground (arith, same), ground (arith, older)))
  ]
]

put-keeps : (u v : ℕ) (i : String) (t w : ℕ) (ks : Keep) → Covers v w ks → Covers v w (put u i t ks)
unfolding put kept_of
put-keeps u v i t w [] (e, (h, l)) = ground (arith, h)
put-keeps u v i t w ((x, (j, s)) ∷ ks) (e, (h, l)) = elim (Bool-cases (x == u)) [
  | inr other ↦ rw other (elim (Bool-cases (x == v)) [
    | inl mine ↦ ((j, s), (ground (arith, mine), ground (arith, h, mine, l)))
    | inr theirs ↦
        let (f, (g, m)) = put-keeps u v i t w ks (e, (ground (arith, h, theirs), l)) in
        (f, (ground (arith, theirs, g), m))
  ])
  | inl same ↦ rw same (elim (Bool-cases (ltb s t)) [
    | inr older ↦ rw older (e, (h, l))
    | inl newer ↦ rw newer (elim (Bool-cases (x == v)) [
      | inl mine ↦ ((i, t), (ground (arith, mine, same), ground (arith, h, mine, l, newer)))
      | inr theirs ↦ (e, (ground (arith, theirs, same, h), l))
    ])
  ])
]

put-source :
    (u x : ℕ) (i : String) (t : ℕ) (ks : Keep) (e : String × ℕ)
    → kept_of u (put x i t ks) ≡ some e
    → ((x ≡ u) × (e ≡ (i, t))) ⊎ (kept_of u ks ≡ some e)
unfolding put kept_of
put-source u x i t [] e h = ground (arith, h)
put-source u x i t ((v, (j, s)) ∷ ks) e h = ground (arith, h, put-source u x i t ks e)

put-Sound :
    (rows : List Stopped) (r : Stopped) (t : ℕ) (ks : Keep)
    → Elem r rows
    → r.stopped_since ≡ some t
    → Sound rows ks
    → Sound rows (put r.user_id r.instance_id t ks)
put-Sound rows r t ks here since sound u e h =
    elim (put-source u r.user_id r.instance_id t ks e h) [
      | inl (same, q) ↦
          (r, (here, (same, (ap (λ p. p.0) (sym q), since ∙ ap (λ p. some p.1) (sym q)))))
      | inr old ↦ sound u e old
    ]

note-Covers :
    (r : Stopped) (t : ℕ) (ks : Keep) → r.stopped_since ≡ some t → Covers r.user_id t (note r ks)
unfolding note
note-Covers r t ks h =
    subst
      (λ (o : Option ℕ).
        Covers r.user_id t
          (elim o as (λ _. Keep) [ none ↦ ks | some t ↦ put r.user_id r.instance_id t ks ]))
      (sym h) (put-Covers r.user_id r.instance_id t ks)

note-keeps : (r : Stopped) (v w : ℕ) (ks : Keep) → Covers v w ks → Covers v w (note r ks)
unfolding note
note-keeps r v w ks h = by_since r.stopped_since
  where
    by_since :
        (o : Option ℕ)
        → Covers v w
            (elim o as (λ _. Keep) [ none ↦ ks | some t ↦ put r.user_id r.instance_id t ks ])
    by_since none = h
    by_since (some t) = put-keeps r.user_id v r.instance_id t w ks h

profile_from-keeps :
    (rs : List Stopped) (v w : ℕ) (ks : Keep) → Covers v w ks → Covers v w (profile_from rs ks)
unfolding profile_from
profile_from-keeps [] v w ks h = h
profile_from-keeps (r ∷ rs) v w ks h = profile_from-keeps rs v w (note r ks) (note-keeps r v w ks h)

pub profile_from-Covers :
    (rs : List Stopped) (r : Stopped) (t : ℕ) (ks : Keep)
    → Elem r rs
    → r.stopped_since ≡ some t
    → Covers r.user_id t (profile_from rs ks)
unfolding profile_from
profile_from-Covers [] r t ks m h = elim m [ ]
profile_from-Covers (x ∷ rs) r t ks (inl e) h =
    profile_from-keeps rs r.user_id t (note x ks)
      (subst (λ (z : Stopped). Covers r.user_id t (note z ks)) e (note-Covers r t ks h))
profile_from-Covers (x ∷ rs) r t ks (inr m) h = profile_from-Covers rs r t (note x ks) m h

pub profile_from-Sound :
    (rows rs : List Stopped) (ks : Keep)
    → ((r : Stopped) → Elem r rs → Elem r rows)
    → Sound rows ks
    → Sound rows (profile_from rs ks)
unfolding profile_from note
profile_from-Sound rows [] ks inside sound = sound
profile_from-Sound rows (r ∷ rs) ks inside sound =
    profile_from-Sound rows rs (note r ks) (λ x m. inside x (inr m)) (noted r.stopped_since refl)
  where
    noted :
        (o : Option ℕ)
        → r.stopped_since ≡ o
        → Sound rows
            (elim o as (λ _. Keep) [ none ↦ ks | some t ↦ put r.user_id r.instance_id t ks ])
    noted none h = sound
    noted (some t) h = put-Sound rows r t ks (inside r (inl refl)) h sound
