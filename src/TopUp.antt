-- ===== src/TopUp.antt =====
-- backend/internal/topup: requests for credit and their review, with the routing of
-- backend/cmd/api/crediter.go.
pub mod Review
pub mod Approval
mod Tests
use giosk.Prelude.{
  ℕ, ◌+◌, Bool, true, false, ◌&&◌, Option, none, some, List, [], ◌∷◌, ◌++◌, String, str_eq, ℤ, ◌==◌,
  if◌then◌else◌, first_where, update_where,
}
use giosk.Wallet.Db.{
  Db, Error, db_error, not_found, already_reviewed, unknown_target, Result, ok, err, Action, ◌>>=◌,
  ◌>>◌, pure, raise, attempt,
}
use giosk.Wallet.Pool.{add_pool}
use giosk.Wallet.Service.{Service, credit_user, credit_group}

pub data Status : Type 0 where
  pending approved rejected : Status

pub record Request : Type 0 where
  pub id : ℕ
  pub requester : ℕ
  pub target_type : String
  pub target_id : ℕ
  pub amount : ℤ
  pub reason : String
  pub status : Status
  pub reviewer : Option ℕ

pub record CreateReq : Type 0 where
  pub target_type : String
  pub target_id : ℕ
  pub amount : ℤ
  pub reason : String

-- The table topup_requests, the id that its next row gets, and the tables of the wallet package.
pub record State : Type 0 where
  pub requests : List Request
  pub next_id : ℕ
  pub db : Db

abbrev pub id_key : ℕ → Request → Bool
id_key i q = q.id == i

abbrev pub is_pending : Request → Bool
is_pending q = elim q.status [ pending ↦ true | approved ↦ false | rejected ↦ false ]

-- A statement on topup_requests, whose own effect is `f`.
pub statement : {A : Type 0} → (State → Result A × State) → State → Result A × State
statement f s =
    let (r, d) = attempt (λ d. (tt, d)) s.db in
    elim r [ ok _ ↦ f (record s { db = d }) | err e ↦ (err e, record s { db = d }) ]

new_request : ℕ → CreateReq → State → Request
new_request u req s = record {
  id = s.next_id;
  requester = u;
  target_type = req.target_type;
  target_id = if str_eq req.target_type "user" && req.target_id == 0 then u else req.target_id;
  amount = req.amount;
  reason = req.reason;
  status = pending;
  reviewer = none;
}

insert : ℕ → CreateReq → State → Result (Unit {0}) × State
unfolding new_request
insert u req s =
    (ok tt, record s { requests = s.requests ++ new_request u req s ∷ []; next_id = s.next_id + 1 })

pub create : ℕ → CreateReq → State → Result (Unit {0}) × State
unfolding statement insert
create u req = statement (insert u req)

found : ℕ → State → Result Request × State
found i s = elim (first_where (id_key i) s.requests) [
  | none ↦ (err not_found, s)
  | some q ↦ (ok q, s)
]

pub get : ℕ → State → Result Request × State
unfolding found
get i = statement (found i)

abbrev reviewed : ℕ → ℕ → Status → List Request → List Request
reviewed i by status qs =
    update_where (λ q. id_key i q && is_pending q)
      (λ q. record q { status = status; reviewer = some by }) qs

write_review : ℕ → ℕ → Status → State → Result (Unit {0}) × State
write_review i by status s = (ok tt, record s { requests = reviewed i by status s.requests })

pub mark_reviewed : ℕ → ℕ → Status → State → Result (Unit {0}) × State
unfolding write_review
mark_reviewed i by status = statement (write_review i by status)

-- The crediter: the kind of target decides where the amount goes.
pub credit : Service → String → ℕ → ℤ → ℕ → Action (Unit {0})
credit svc kind target amount actor =
    if str_eq kind "user"
    then (credit_user svc target 0 amount "topup approved" (some actor) >> pure tt)
    else if str_eq kind "group"
    then (credit_group svc target amount (some actor) >> pure tt)
    else if str_eq kind "org"
    then add_pool target amount
    else raise unknown_target

-- Approve behind the read of the request.
pub approve_found : Service → ℕ → ℕ → Request → State → Result (Unit {0}) × State
approve_found svc i by q s =
    if is_pending q
    then (let (r, d) = credit svc q.target_type q.target_id q.amount by s.db in
        elim r [
          | ok _ ↦ mark_reviewed i by approved (record s { db = d })
          | err e ↦ (err e, record s { db = d })
        ])
    else (err already_reviewed, s)

pub approve : Service → ℕ → ℕ → State → Result (Unit {0}) × State
approve svc i by s =
    let (r, s') = get i s in elim r [ ok q ↦ approve_found svc i by q s' | err e ↦ (err e, s') ]

pub reject : ℕ → ℕ → State → Result (Unit {0}) × State
reject i by = mark_reviewed i by rejected
