-- ===== src/TopUp/Review.antt =====
-- A request that is reviewed stays so.
use giosk.Prelude.{
  ℕ, ◌≡◌, subst, inl, inr, Bool, true, false, ◌&&◌, Option, none, some, List, [], ◌∷◌, ◌++◌,
  first_where, arith, Bool-cases,
}
use giosk.Wallet.Db.{Db, db_error, not_found, Result, ok, err}
use giosk.Wallet.Db.Faults.{at, attempt_elim}
use giosk.Wallet.Service.{Service}
use giosk.TopUp.{
  Status, approved, rejected, Request, CreateReq, State, id_key, is_pending, statement, new_request,
  insert, create, found, get, reviewed, write_review, mark_reviewed, credit, approve_found, approve,
  reject,
}

-- A statement that fails changes no request; else it has its own effect on them.
pub statement_elim :
    {A : Type 0} (P : Result A × State → Type 0) (f : State → Result A × State) (s : State)
    → ((fs : List Bool) → P (err db_error, record s { db = at s.db fs }))
    → ((fs : List Bool) → P (f (record s { db = at s.db fs })))
    → P (statement f s)
unfolding statement
statement_elim {A} P f s failed worked =
    attempt_elim
      (λ r. P (elim r.0 as (λ _. Result A × State) [
        | ok _ ↦ f (record s { db = r.1 })
        | err e ↦ (err e, record s { db = r.1 })
      ]))
      (λ d. (tt, d)) s.db failed worked

-- The row of request `i` is there and is `q`.
abbrev pub Row : ℕ → Request → State → Type 0
Row i q s = first_where (id_key i) s.requests ≡ some q

reviewed-kept :
    (i j by : ℕ) (status : Status) (q : Request) (qs : List Request)
    → is_pending q ≡ false
    → first_where (id_key i) qs ≡ some q
    → first_where (id_key i) (reviewed j by status qs) ≡ some q
reviewed-kept i j by status q [] h e = ground (arith, e)
reviewed-kept i j by status q (r ∷ qs) h e = elim (Bool-cases (id_key j r && is_pending r)) [
  | inl hit ↦ elim (Bool-cases (id_key i r)) [
    | inl same ↦ elim (clash hit (ground (arith, e, same))) [ ]
    | inr other ↦ rw (hit) (ground (arith, other, e, reviewed-kept i j by status q qs h))
  ]
  | inr miss ↦ rw (miss) (ground (arith, e, reviewed-kept i j by status q qs h))
]
  where
    clash : (id_key j r && is_pending r) ≡ true → r ≡ q → ⊥
    clash hit same =
        let still : is_pending q ≡ true =
          subst (λ z. is_pending z ≡ true) same (ground (arith, hit)) in
        ground (arith, still, h)

inserted-kept :
    (i : ℕ) (q : Request) (r : Request) (qs : List Request)
    → first_where (id_key i) qs ≡ some q
    → first_where (id_key i) (qs ++ r ∷ []) ≡ some q
inserted-kept i q r [] e = ground (arith, e)
inserted-kept i q r (x ∷ qs) e = ground (arith, e, inserted-kept i q r qs)

-- What the users and the reviewers ask for.
pub data Op : Type 0 where
  create_op : ℕ → CreateReq → Op
  approve_op reject_op : ℕ → ℕ → Op

abbrev pub perform : Service → Op → State → State
perform svc (create_op u req) s = (create u req s).1
perform svc (approve_op i by) s = (approve svc i by s).1
perform svc (reject_op i by) s = (reject i by s).1

abbrev pub run : Service → List Op → State → State
run svc [] s = s
run svc (op ∷ ops) s = run svc ops (perform svc op s)

module _ (svc : Service) (i : ℕ) (q : Request) (closed : is_pending q ≡ false) where
  mark_reviewed-keeps :
      (j by : ℕ) (status : Status) (s : State) → Row i q s → Row i q (mark_reviewed j by status s).1
  unfolding mark_reviewed write_review
  mark_reviewed-keeps j by status s row =
      statement_elim (λ r. Row i q r.1) (write_review j by status) s (λ fs. row)
        (λ fs. reviewed-kept i j by status q s.requests closed row)

  approve_found-keeps :
      (j by : ℕ) (r : Request) (s : State) → Row i q s → Row i q (approve_found svc j by r s).1
  unfolding approve_found
  approve_found-keeps j by r s row = elim (Bool-cases (is_pending r)) [
    | inr other ↦ rw other row
    | inl fresh ↦ rw fresh (credited (credit svc r.target_type r.target_id r.amount by s.db))
  ]
    where
      credited :
          (c : Result (Unit {0}) × Db)
          → Row i q
              (elim c.0 as (λ _. Result (Unit {0}) × State) [
                | ok _ ↦ mark_reviewed j by approved (record s { db = c.1 })
                | err e ↦ (err e, record s { db = c.1 })
              ]).1
      credited (ok _, d) = mark_reviewed-keeps j by approved (record s { db = d }) row
      credited (err e, d) = row

  approve-keeps : (j by : ℕ) (s : State) → Row i q s → Row i q (approve svc j by s).1
  unfolding approve get found
  approve-keeps j by s row =
      statement_elim
        (λ r.
          Row i q
            (elim r.0 as (λ _. Result (Unit {0}) × State) [
              | ok p ↦ approve_found svc j by p r.1
              | err e ↦ (err e, r.1)
            ]).1)
        (found j) s (λ fs. row) (λ fs. looked (first_where (id_key j) s.requests) fs)
    where
      looked :
          (o : Option Request) (fs : List Bool)
          → Row i q
              (let r : Result Request × State = elim o [
                | none ↦ (err not_found, record s { db = at s.db fs })
                | some p ↦ (ok p, record s { db = at s.db fs })
              ] in
                elim r.0 as (λ _. Result (Unit {0}) × State) [
                  | ok p ↦ approve_found svc j by p r.1
                  | err e ↦ (err e, r.1)
                ]).1
      looked none fs = row
      looked (some p) fs = approve_found-keeps j by p (record s { db = at s.db fs }) row

  perform-keeps : (op : Op) (s : State) → Row i q s → Row i q (perform svc op s)
  unfolding create insert reject
  perform-keeps (create_op u req) s row =
      statement_elim (λ r. Row i q r.1) (insert u req) s (λ fs. row)
        (λ fs. inserted-kept i q (new_request u req s) s.requests row)
  perform-keeps (approve_op j by) s row = approve-keeps j by s row
  perform-keeps (reject_op j by) s row = mark_reviewed-keeps j by rejected s row

  -- A request that has been approved or rejected keeps its row, the decision and the reviewer
  -- included, whatever is created, approved and rejected afterwards.
  pub run-Row : (ops : List Op) (s : State) → Row i q s → Row i q (run svc ops s)
  run-Row [] s row = row
  run-Row (op ∷ ops) s row = run-Row ops (perform svc op s) (perform-keeps op s row)
