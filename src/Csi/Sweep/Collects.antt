-- ===== src/Csi/Sweep/Collects.antt =====
-- The collector gets there: what stays an orphan is deleted.
use giosk.Prelude.{
  ◌≡◌, refl, ◌⊎◌, inl, inr, Bool, true, false, Option, some, List, [], ◌∷◌, ◌++◌, String, Elem,
  arith, eq_iff, Bool-cases, subst,
}
use giosk.Csi.Sweep.{
  Kind, image, stage, Key, has, Volume, live, Env, Pass, step, sweep_ids, swept, sweep,
}

Elem-snoc :
    {A : Type 0} (a : A) (xs : List A) (x : A) → (Elem a xs ⊎ (a ≡ x)) → Elem a (xs ++ x ∷ [])
Elem-snoc a [] x (inl m) = elim m [ ]
Elem-snoc a [] x (inr e) = inl e
Elem-snoc a (y ∷ xs) x (inl (inl e)) = inl e
Elem-snoc a (y ∷ xs) x (inl (inr m)) = inr (Elem-snoc a xs x (inl m))
Elem-snoc a (y ∷ xs) x (inr e) = inr (Elem-snoc a xs x (inr e))

key_eq_refl : (k : Kind) (i : String) (ks : List Key) → has (k, i) ((k, i) ∷ ks) ≡ true
unfolding has
key_eq_refl image i ks = ground (arith, eq_iff i i)
key_eq_refl stage i ks = ground (arith, eq_iff i i)

has-Elem : (key : Key) (ks : List Key) → Elem key ks → has key ks ≡ true
unfolding has
has-Elem (k, i) [] m = elim m [ ]
has-Elem (k, i) ((l, j) ∷ ks) (inl e) =
    subst (λ z. has (k, i) (z ∷ ks) ≡ true) e (key_eq_refl k i ks)
has-Elem key (l ∷ ks) (inr m) = ground (arith, has-Elem key ks m)

module _ (deletes : Key → Bool) (vs : List (Option Volume)) (suspects : List Key) (k : Kind) where
  -- Nothing that a step has noted is lost in a later one.
  step-keeps :
      (key : Key) (i : String) (p : Pass)
      → (Elem key p.asked → Elem key (step deletes vs suspects k i p).asked)
        × (Elem key p.next → Elem key (step deletes vs suspects k i p).next)
  unfolding step
  step-keeps key i p = elim (Bool-cases (live i vs)) [
    | inl lives ↦ rw lives (λ m. m, λ m. m)
    | inr orphan ↦ rw orphan (elim (Bool-cases (has (k, i) suspects)) [
      | inr fresh ↦ rw fresh (λ m. m, λ m. Elem-snoc key p.next (k, i) (inl m))
      | inl suspect ↦ rw suspect (elim (Bool-cases (deletes (k, i))) [
        | inl gone ↦ rw gone (λ m. Elem-snoc key p.asked (k, i) (inl m), λ m. m)
        | inr failed ↦
            rw failed
              (λ m. Elem-snoc key p.asked (k, i) (inl m), λ m. Elem-snoc key p.next (k, i) (inl m))
      ])
    ])
  ]

  sweep_ids-keeps :
      (key : Key) (is : List String) (p : Pass)
      → (Elem key p.asked → Elem key (sweep_ids deletes vs suspects k is p).asked)
        × (Elem key p.next → Elem key (sweep_ids deletes vs suspects k is p).next)
  unfolding sweep_ids
  sweep_ids-keeps key [] p = (λ m. m, λ m. m)
  sweep_ids-keeps key (i ∷ is) p =
      let rest = sweep_ids-keeps key is (step deletes vs suspects k i p) in
      let here = step-keeps key i p in (λ m. rest.0 (here.0 m), λ m. rest.1 (here.1 m))

  -- An orphan is noted by the step that meets it.
  step-notes :
      (i : String) (p : Pass)
      → live i vs ≡ false
      → ((has (k, i) suspects ≡ true) × Elem (k, i) (step deletes vs suspects k i p).asked)
        ⊎ ((has (k, i) suspects ≡ false) × Elem (k, i) (step deletes vs suspects k i p).next)
  unfolding step
  step-notes i p orphan = elim (Bool-cases (has (k, i) suspects)) [
    | inr fresh ↦ inr (fresh, rw (orphan, fresh) (Elem-snoc (k, i) p.next (k, i) (inr refl)))
    | inl suspect ↦ inl (
      suspect,
      elim (Bool-cases (deletes (k, i))) [
        | inl gone ↦ rw (orphan, suspect, gone) (Elem-snoc (k, i) p.asked (k, i) (inr refl))
        | inr failed ↦ rw (orphan, suspect, failed) (Elem-snoc (k, i) p.asked (k, i) (inr refl))
      ],
    )
  ]

  sweep_ids-suspects :
      (i : String) (is : List String) (p : Pass)
      → Elem i is
      → live i vs ≡ false
      → has (k, i) suspects ≡ false
      → Elem (k, i) (sweep_ids deletes vs suspects k is p).next
  unfolding sweep_ids
  sweep_ids-suspects i [] p m orphan fresh = elim m [ ]
  sweep_ids-suspects i (j ∷ is) p (inr m) orphan fresh =
      sweep_ids-suspects i is (step deletes vs suspects k j p) m orphan fresh
  sweep_ids-suspects i (j ∷ is) p (inl e) orphan fresh =
      (sweep_ids-keeps (k, i) is (step deletes vs suspects k j p)).1 (
        subst (λ z. Elem (k, i) (step deletes vs suspects k z p).next) e
          (elim (step-notes i p orphan) [ inl (s, m) ↦ elim (clash s) [ ] | inr (f, m) ↦ m ]))
    where
      clash : has (k, i) suspects ≡ true → ⊥
      clash s = ground (arith, s, fresh)

  sweep_ids-asks :
      (i : String) (is : List String) (p : Pass)
      → Elem i is
      → live i vs ≡ false
      → has (k, i) suspects ≡ true
      → Elem (k, i) (sweep_ids deletes vs suspects k is p).asked
  unfolding sweep_ids
  sweep_ids-asks i [] p m orphan suspect = elim m [ ]
  sweep_ids-asks i (j ∷ is) p (inr m) orphan suspect =
      sweep_ids-asks i is (step deletes vs suspects k j p) m orphan suspect
  sweep_ids-asks i (j ∷ is) p (inl e) orphan suspect =
      (sweep_ids-keeps (k, i) is (step deletes vs suspects k j p)).0 (
        subst (λ z. Elem (k, i) (step deletes vs suspects k z p).asked) e
          (elim (step-notes i p orphan) [ inl (s, m) ↦ m | inr (f, m) ↦ elim (clash f) [ ] ]))
    where
      clash : has (k, i) suspects ≡ false → ⊥
      clash f = ground (arith, f, suspect)

-- A pass whose three lists there are.
abbrev pub listed_env : List (Option Volume) → List String → List String → (Key → Bool) → Env
listed_env vs is ss deletes = record {
  volumes = some vs;
  images = some is;
  stages = some ss;
  deletes = deletes;
}

module _ (vs vs' : List (Option Volume)) (is is' ss ss' : List String)
    (deletes deletes' : Key → Bool) (suspects : List Key) where
  -- An image that two passes in a row find on the node, and in no list of PersistentVolumes, is
  -- asked to be deleted by the second of them at the latest: it is no suspect before the first.
  pub sweep-collects :
      (i : String)
      → Elem i is
      → live i vs ≡ false
      → has (Kind.image, i) suspects ≡ false
      → Elem i is'
      → live i vs' ≡ false
      → Elem
          (Kind.image, i)
          (sweep
            (listed_env vs' is' ss' deletes')
            (sweep (listed_env vs is ss deletes) suspects).1.next).1.asked
  unfolding sweep swept
  sweep-collects i here orphan fresh here' orphan' =
      (sweep_ids-keeps deletes' vs' noted Kind.stage (Kind.image, i) ss' _).0 (
        sweep_ids-asks deletes' vs' noted Kind.image i is' _ here' orphan' (
          has-Elem (Kind.image, i) noted
            ((sweep_ids-keeps deletes vs suspects Kind.stage (Kind.image, i) ss _).1
              (sweep_ids-suspects deletes vs suspects Kind.image i is _ here orphan fresh))))
    where
      noted : List Key
      noted = (sweep (listed_env vs is ss deletes) suspects).1.next
