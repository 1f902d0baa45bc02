-- ===== src/Csi/Sweep/Twice.antt =====
-- What the collector may delete: the orphans of two passes in a row.
use giosk.Prelude.{
  ◌≡◌, inl, inr, Bool, true, false, Option, none, some, List, [], ◌∷◌, ◌++◌, String, str_eq, All,
  arith, eq_iff, Bool-cases, sym, subst,
}
use giosk.Csi.Sweep.{Kind, Key, has, Volume, live, Env, Pass, step, sweep_ids, swept, sweep}

module _ {A : Type 0} (P : A → Type 0) where
  All-snoc : (xs : List A) (x : A) → All P xs → P x → All P (xs ++ x ∷ [])
  All-snoc [] x h p = (p, tt)
  All-snoc (y ∷ xs) x (h, hs) p = (h, All-snoc xs x hs p)

-- Orphaned in the list that this pass has.
abbrev pub Orphan : List (Option Volume) → Key → Type 0
Orphan vs key = live key.1 vs ≡ false

module _ (deletes : Key → Bool) (vs : List (Option Volume)) (suspects : List Key) (k : Kind) where
  abbrev Careful : Pass → Type 0
  Careful p =
      All (λ key. (has key suspects ≡ true) × Orphan vs key) p.asked × All (Orphan vs) p.next

  step-Careful : (i : String) (p : Pass) → Careful p → Careful (step deletes vs suspects k i p)
  unfolding step
  step-Careful i p (asked, next) = elim (Bool-cases (live i vs)) [
    | inl lives ↦ rw lives (asked, next)
    | inr orphan ↦ rw orphan (elim (Bool-cases (has (k, i) suspects)) [
      | inr fresh ↦ rw fresh (asked, All-snoc (Orphan vs) p.next (k, i) next orphan)
      | inl suspect ↦ rw suspect (elim (Bool-cases (deletes (k, i))) [
        | inl gone ↦ rw gone (
          All-snoc (λ key. (has key suspects ≡ true) × Orphan vs key) p.asked (k, i) asked
              (suspect, orphan),
          next,
        )
        | inr failed ↦ rw failed (
          All-snoc (λ key. (has key suspects ≡ true) × Orphan vs key) p.asked (k, i) asked
              (suspect, orphan),
          All-snoc (Orphan vs) p.next (k, i) next orphan,
        )
      ])
    ])
  ]

  sweep_ids-Careful :
      (is : List String) (p : Pass) → Careful p → Careful (sweep_ids deletes vs suspects k is p)
  unfolding sweep_ids
  sweep_ids-Careful [] p h = h
  sweep_ids-Careful (i ∷ is) p h =
      sweep_ids-Careful is (step deletes vs suspects k i p) (step-Careful i p h)

has-Orphan :
    (vs : List (Option Volume)) (ks : List Key) (k : Kind) (i : String)
    → All (Orphan vs) ks
    → has (k, i) ks ≡ true
    → Orphan vs (k, i)
unfolding has
has-Orphan vs [] k i h e = ground (arith, e)
has-Orphan vs ((l, j) ∷ ks) k i (h, hs) e = elim (Bool-cases (str_eq i j)) [
  | inl same ↦ subst (λ z. live z vs ≡ false) (ground (arith, eq_iff i j, same)) h
  | inr other ↦ has-Orphan vs ks k i hs (ground (arith, other, e))
]

swept-Careful :
    (env : Env) (vs : List (Option Volume)) (suspects : List Key) (is ss : List String)
    → All (λ key. (has key suspects ≡ true) × Orphan vs key) (swept env vs suspects is ss).asked
      × All (Orphan vs) (swept env vs suspects is ss).next
unfolding swept
swept-Careful env vs suspects is ss =
    sweep_ids-Careful env.deletes vs suspects Kind.stage ss _
      (sweep_ids-Careful env.deletes vs suspects Kind.image is _ (tt, tt))

-- What a pass over `vs` asked for, when its suspects came from a pass over `vs'`.
abbrev pub TwiceOrphan : List (Option Volume) → List (Option Volume) → Key → Type 0
TwiceOrphan vs' vs key = Orphan vs' key × Orphan vs key

All-map :
    {A : Type 0} (P Q : A → Type 0) → ((x : A) → P x → Q x) → (xs : List A) → All P xs → All Q xs
All-map P Q f [] h = tt
All-map P Q f (x ∷ xs) (h, hs) = (f x h, All-map P Q f xs hs)

-- A pass by the lists that it gets.
pass_of :
    (Key → Bool)
    → List Key
    → Option (List (Option Volume))
    → Option (List String)
    → Option (List String)
    → Bool × Pass
unfolding sweep
pass_of deletes suspects vs is ss =
    sweep (record { volumes = vs; images = is; stages = ss; deletes = deletes }) suspects

module _ (deletes : Key → Bool) (suspects : List Key) where
  next-Orphan :
      (vs : List (Option Volume)) (is ss : Option (List String))
      → (pass_of deletes suspects (some vs) is ss).0 ≡ true
      → All (Orphan vs) (pass_of deletes suspects (some vs) is ss).1.next
  unfolding pass_of sweep
  next-Orphan vs none ss done = ground (arith, done)
  next-Orphan vs (some is) none done = ground (arith, done)
  next-Orphan vs (some is) (some ss) done = (swept-Careful _ vs suspects is ss).1

  asked-Careful :
      (vs : List (Option Volume)) (is ss : Option (List String))
      → All
          (λ key. (has key suspects ≡ true) × Orphan vs key)
          (pass_of deletes suspects (some vs) is ss).1.asked
  unfolding pass_of sweep
  asked-Careful vs none ss = tt
  asked-Careful vs (some is) none = tt
  asked-Careful vs (some is) (some ss) = (swept-Careful _ vs suspects is ss).0

module _ (first second : Env) (suspects : List Key) (vs vs' : List (Option Volume))
    (listed : first.volumes ≡ some vs) (done : (sweep first suspects).0 ≡ true)
    (listed' : second.volumes ≡ some vs') where
  -- After a pass that went through, the next pass asks to delete only what neither of the two lists
  -- of PersistentVolumes names.
  pub sweep-TwiceOrphan :
      All (TwiceOrphan vs vs') (sweep second (sweep first suspects).1.next).1.asked
  unfolding pass_of
  sweep-TwiceOrphan =
      All-map (λ key. (has key (sweep first suspects).1.next ≡ true) × Orphan vs' key)
        (TwiceOrphan vs vs')
        (λ (k, i) h. (has-Orphan vs (sweep first suspects).1.next k i before h.0, h.1)) _ asked
    where
      before : All (Orphan vs) (sweep first suspects).1.next
      before =
          subst
            (λ (o : Option (List (Option Volume))).
              (pass_of first.deletes suspects o first.images first.stages).0 ≡ true
              → All (Orphan vs) (pass_of first.deletes suspects o first.images first.stages).1.next)
            (sym listed) (next-Orphan first.deletes suspects vs first.images first.stages) done

      asked :
          All
            (λ key. (has key (sweep first suspects).1.next ≡ true) × Orphan vs' key)
            (sweep second (sweep first suspects).1.next).1.asked
      asked =
          subst
            (λ (o : Option (List (Option Volume))).
              All (λ key. (has key (sweep first suspects).1.next ≡ true) × Orphan vs' key)
                (pass_of second.deletes (sweep first suspects).1.next o second.images
                  second.stages).1.asked)
            (sym listed')
            (asked-Careful second.deletes (sweep first suspects).1.next vs' second.images
              second.stages)
