-- ===== src/Wallet/Db/Faults.antt =====
-- How a statement can end.
use giosk.Prelude.{ap, ◌≡◌, refl, Bool, true, false, List, [], ◌∷◌}
use giosk.Wallet.Db.{Db, Result, ok, err, db_error, Action, attempt, written, Error, ◌>>=◌}

-- `d` with another schedule of faults: every table is as it was.
abbrev pub at : Db → List Bool → Db
at d fs = record d { faults = fs }

abbrev pub done : {A : Type 0} → A × Db → Result A × Db
done p = (ok p.0, p.1)

-- A statement fails and leaves every table as it was, or has its effect: to prove what holds of
-- its outcome, prove it of both.
pub attempt_elim :
    {A : Type 0} (P : Result A × Db → Type 0) (f : Db → A × Db) (d : Db)
    → ((fs : List Bool) → P (err db_error, at d fs))
    → ((fs : List Bool) → P (done (f (at d fs))))
    → P (attempt f d)
unfolding attempt
attempt_elim P f d failed worked = go d.faults refl
  where
    go : (fs : List Bool) → d.faults ≡ fs → P (attempt f d)
    go [] e = rw (e, attempt) (worked [])
    go (true ∷ rest) e = rw (e, attempt) (failed rest)
    go (false ∷ rest) e = rw (e, attempt) (worked rest)

-- The schedule behind the next statement.
abbrev pub rest : List Bool → List Bool
rest [] = []
rest (_ ∷ fs) = fs

-- The same, with the schedule that is left.
pub attempt_rest :
    {A : Type 0} (P : Result A × Db → Type 0) (f : Db → A × Db) (d : Db)
    → P (err db_error, at d (rest d.faults))
    → P (done (f (at d (rest d.faults))))
    → P (attempt f d)
unfolding attempt
attempt_rest P f d failed worked = go d.faults refl failed worked
  where
    go :
        (fs : List Bool)
        → d.faults ≡ fs
        → P (err db_error, at d (rest fs))
        → P (done (f (at d (rest fs))))
        → P (attempt f d)
    go [] e failed worked = rw (e, attempt) worked
    go (true ∷ fs) e failed worked = rw (e, attempt) failed
    go (false ∷ fs) e failed worked = rw (e, attempt) worked

-- Where no statement fails any more.
pub attempt-clear :
    {A : Type 0} (f : Db → A × Db) (d : Db) → d.faults ≡ [] → attempt f d ≡ done (f (at d []))
unfolding attempt
attempt-clear f d h = rw (h, attempt) refl

-- Where the next statement does not fail.
pub attempt-works :
    {A : Type 0} (f : Db → A × Db) (d : Db) (fs : List Bool)
    → d.faults ≡ false ∷ fs
    → attempt f d ≡ done (f (at d fs))
unfolding attempt
attempt-works f d fs h = rw (h, attempt) refl

-- The rule for a sequence: `Q` is what the first action ensures.
pub bind_elim :
    {A B : Type 0} (Q : Result A × Db → Type 0) (P : Result B × Db → Type 0) (m : Action A)
    (k : A → Action B) (d : Db)
    → Q (m d)
    → ((a : A) (e : Db) → Q (ok a, e) → P (k a e))
    → ((x : Error) (e : Db) → Q (err x, e) → P (err x, e))
    → P ((m >>= k) d)
bind_elim {A} Q P m k d q good bad = go (m d) q
  where
    go : (r : Result A × Db) → Q r → P (elim r.0 [ ok a ↦ k a r.1 | err x ↦ (err x, r.1) ])
    go (ok a, e) h = good a e h
    go (err x, e) h = bad x e h

module _ {A B : Type 0} (m : Action A) (k : A → Action B) (d : Db) where
  pub bind_ok : {a : A} {e : Db} → m d ≡ (ok a, e) → (m >>= k) d ≡ k a e
  bind_ok h = ap (λ r. elim r.0 [ ok a ↦ k a r.1 | err x ↦ (err x, r.1) ]) h

  pub bind_err : {x : Error} {e : Db} → m d ≡ (err x, e) → (m >>= k) d ≡ (err x, e)
  bind_err h = ap (λ r. elim r.0 [ ok a ↦ k a r.1 | err x ↦ (err x, r.1) ]) h

-- A row that is written, or not.
pub written_elim :
    {R : Type 0} (P : R × Db → Type 0) (old new : R) (d : Db)
    → ((fs : List Bool) → P (old, at d fs))
    → ((fs : List Bool) → P (new, at d fs))
    → P (written old new d)
written_elim {R} P old new d failed worked =
    attempt_elim (λ r. P (elim r.0 as (λ _. R) [ ok _ ↦ new | err _ ↦ old ], r.1)) (λ z. (tt, z)) d
      failed worked
