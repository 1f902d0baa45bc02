-- ===== src/Volume/Store/Statements.antt =====
-- How a statement on the volumes' tables can end.
use giosk.Prelude.{Bool, true, false, ◌∷◌, List, [], ◌≡◌, refl, ap}
use giosk.Wallet.Db.{attempt}
use giosk.Wallet.Db
use giosk.Wallet.Db.Faults
use giosk.Wallet.Db.Faults.{attempt_elim, attempt_rest, attempt-clear, attempt-works, rest}
use giosk.Volume.Store.{Store, Result, ok, err, db_error, Action, Error, statement, ◌>>=◌}

-- `s` with another schedule of faults: every table is as it was.
abbrev pub at : Store → List Bool → Store
at s fs = record s { wallets = Faults.at s.wallets fs }

abbrev pub done : {A : Type 0} → A × Store → Result A × Store
done p = (ok p.0, p.1)

-- To prove what holds of the outcome of a statement, prove it of a failure and of its effect.
pub statement_elim :
    {A : Type 0} (P : Result A × Store → Type 0) (f : Store → A × Store) (s : Store)
    → ((fs : List Bool) → P (err db_error, at s fs))
    → ((fs : List Bool) → P (done (f (at s fs))))
    → P (statement f s)
unfolding statement
statement_elim {A} P f s failed worked =
    attempt_elim
      (λ r. P (elim r.0 as (λ _. Result A × Store) [
        | Db.ok _ ↦ done (f (record s { wallets = r.1 }))
        | Db.err _ ↦ (err db_error, record s { wallets = r.1 })
      ]))
      (λ z. (tt, z)) s.wallets failed worked

-- The same, with the schedule that is left.
pub statement_rest :
    {A : Type 0} (P : Result A × Store → Type 0) (f : Store → A × Store) (s : Store)
    → P (err db_error, at s (rest s.wallets.faults))
    → P (done (f (at s (rest s.wallets.faults))))
    → P (statement f s)
unfolding statement
statement_rest {A} P f s failed worked =
    attempt_rest
      (λ r. P (elim r.0 as (λ _. Result A × Store) [
        | Db.ok _ ↦ done (f (record s { wallets = r.1 }))
        | Db.err _ ↦ (err db_error, record s { wallets = r.1 })
      ]))
      (λ z. (tt, z)) s.wallets failed worked

-- The rule for a sequence: `Q` is what the first action ensures.
pub then_elim :
    {A B : Type 0} (Q : Result A × Store → Type 0) (P : Result B × Store → Type 0) (m : Action A)
    (k : A → Action B) (s : Store)
    → Q (m s)
    → ((a : A) (t : Store) → Q (ok a, t) → P (k a t))
    → ((x : Error) (t : Store) → Q (err x, t) → P (err x, t))
    → P ((m >>= k) s)
then_elim {A} Q P m k s q good bad = go (m s) q
  where
    go : (r : Result A × Store) → Q r → P (elim r.0 [ ok a ↦ k a r.1 | err x ↦ (err x, r.1) ])
    go (ok a, t) h = good a t h
    go (err x, t) h = bad x t h

statement-works :
    {A : Type 0} (f : Store → A × Store) (s : Store) (fs : List Bool)
    → attempt (λ z. (tt {0}, z)) s.wallets ≡ Faults.done (tt, Faults.at s.wallets fs)
    → statement f s ≡ done (f (at s fs))
unfolding statement
statement-works {A} f s fs h =
    ap
      (λ r. elim r.0 as (λ _. Result A × Store) [
        | Db.ok _ ↦ done (f (record s { wallets = r.1 }))
        | Db.err _ ↦ (err db_error, record s { wallets = r.1 })
      ])
      h

-- Where no statement fails any more.
pub statement-clear :
    {A : Type 0} (f : Store → A × Store) (s : Store)
    → s.wallets.faults ≡ []
    → statement f s ≡ done (f (at s []))
statement-clear f s h = statement-works f s [] (attempt-clear (λ z. (tt, z)) s.wallets h)

pub then_ok :
    {A B : Type 0} (m : Action A) (k : A → Action B) (s : Store) {a : A} {t : Store}
    → m s ≡ (ok a, t)
    → (m >>= k) s ≡ k a t
then_ok m k s h = ap (λ r. elim r.0 [ ok a ↦ k a r.1 | err x ↦ (err x, r.1) ]) h

-- The next statement does not fail.
abbrev pub Readable : List Bool → Type 0
Readable [] = Unit
Readable (true ∷ _) = ⊥
Readable (false ∷ _) = Unit

-- The statement after the next one does not fail.
abbrev pub Readable2 : List Bool → Type 0
Readable2 [] = Unit
Readable2 (_ ∷ fs) = Readable fs

pub statement-Readable :
    {A : Type 0} (f : Store → A × Store) (s : Store)
    → Readable s.wallets.faults
    → statement f s ≡ done (f (at s (rest s.wallets.faults)))
statement-Readable {A} f s h = go s.wallets.faults refl h
  where
    go :
        (fs : List Bool)
        → s.wallets.faults ≡ fs
        → Readable fs
        → statement f s ≡ done (f (at s (rest fs)))
    go [] e h = statement-clear f s e
    go (false ∷ fs) e h = statement-works f s fs (attempt-works (λ z. (tt, z)) s.wallets fs e)
    go (true ∷ fs) e h = elim h [ ]
