-- ===== src/Wallet/Service/Passes.antt =====
-- A pass that charges wallets for the rows of a table, turn by turn.
use giosk.Prelude.{ℕ, Bool, List, [], ◌∷◌, ℤ, pos, ◌+ℤ◌, ◌≤ℤ◌, int_laws, All}
use giosk.Wallet.Db.{Db, ok, err, attempt}
use giosk.Wallet.Db.Faults.{at, attempt_elim}
use giosk.Wallet.Store.Effects.{bal}

module _ {R : Type 0} where
  -- `for i := range rows`: each row after its turn.
  unfoldable pub over_rows : (R → Db → R × Db) → List R → Db → List R × Db
  over_rows f [] d = ([], d)
  over_rows f (r ∷ rs) d = let (r', e) = f r d in let (rs', e') = over_rows f rs e in (r' ∷ rs', e')

  -- A query for rows, and what is done with them; where it fails, nothing is.
  unfoldable pub listed : (List R → Db → List R × Db) → List R → Db → List R × Db
  listed next rows d =
      let (r, e) = attempt (λ z. (tt, z)) d in elim r [ ok _ ↦ next rows e | err _ ↦ (rows, e) ]

chained :
    (x y z a a' t t' : ℤ) → y +ℤ a' ≤ℤ x +ℤ a → z +ℤ t' ≤ℤ y +ℤ t → z +ℤ (a' +ℤ t') ≤ℤ x +ℤ (a +ℤ t)
chained x y z a a' t t' p q = omega (int_laws, p, q)

-- `Named` is what a row needs to be charged, and `billed` what it has been billed on a wallet.
module _ {R : Type 0} (Named : R → Type 0) (billed : ℕ → ℕ → R → ℤ) where
  -- What the rows have been billed, on the wallet of `u` in `h`.
  unfoldable pub billed_total : ℕ → ℕ → List R → ℤ
  billed_total u h [] = pos 0
  billed_total u h (r ∷ rs) = billed u h r +ℤ billed_total u h rs

  -- The wallet, with what its rows have been billed, is not worth more than before.
  abbrev pub FairTo : ℕ → ℕ → List R → Db → List R × Db → Type 0
  FairTo u h rows d (rows', e) =
      bal e u h +ℤ billed_total u h rows' ≤ℤ bal d u h +ℤ billed_total u h rows

  abbrev pub Passed : List R → Db → List R × Db → Type 0
  Passed rows d p = All Named p.0 × ((u h : ℕ) → FairTo u h rows d p)

  -- The same of the turn of one row.
  abbrev pub Fair : R → Db → R × Db → Type 0
  Fair r d (r', e) =
      Named r' × ((u h : ℕ) → bal e u h +ℤ billed u h r' ≤ℤ bal d u h +ℤ billed u h r)

  pub over_rows-Passed :
      (f : R → Db → R × Db)
      → ((r : R) (d : Db) → Named r → Fair r d (f r d))
      → (rows : List R) (d : Db) → All Named rows
      → Passed rows d (over_rows f rows d)
  unfolding over_rows billed_total
  over_rows-Passed f fair [] d named = (tt, λ u h. omega int_laws)
  over_rows-Passed f fair (r ∷ rs) d (named, rest) =
      let first = f r d in
      let (kept, paid) = fair r d named in
      let (after, passed) = over_rows-Passed f fair rs first.1 rest in
      (
        (kept, after),
        λ u h.
            chained (bal d u h) (bal first.1 u h) (bal (over_rows f rs first.1).1 u h)
              (billed u h r) (billed u h first.0) (billed_total u h rs)
              (billed_total u h (over_rows f rs first.1).0) (paid u h) (passed u h),
      )

  pub listed-Passed :
      (next : List R → Db → List R × Db) (rows : List R) (d : Db)
      → All Named rows
      → ((fs : List Bool) → Passed rows d (next rows (at d fs)))
      → Passed rows d (listed next rows d)
  unfolding listed
  listed-Passed next rows d named worked =
      attempt_elim
        (λ r.
          Passed rows d
            (elim r.0 as (λ _. List R × Db) [ ok _ ↦ next rows r.1 | err _ ↦ (rows, r.1) ]))
        (λ z. (tt, z)) d (λ fs. (named, λ u h. omega int_laws)) worked
