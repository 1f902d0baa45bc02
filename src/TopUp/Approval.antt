-- ===== src/TopUp/Approval.antt =====
-- What the approval of a request comes to, and what two reviewers at once can do.
use giosk.Prelude.{
  ℕ, ◌≡◌, refl, sym, ap, subst, ◌∙◌, ◌⊎◌, inl, inr, Bool, true, false, some, List, [], pos, ◌+ℤ◌,
  ◌-ℤ◌, ◌<ℤ◌, arith,
}
use giosk.Wallet.Db.{Db, db_error, already_reviewed, Result, ok, err, pure}
use giosk.Wallet.Db.Faults.{at, attempt-clear, bind_ok}
use giosk.Wallet.Store.Effects.{bal}
use giosk.Wallet.Pool.{org_of_user, covers_pool, add_pool_rows}
use giosk.Wallet.Pool.Effects.{covers_pool-again, org_of_user-same}
use giosk.Wallet.Service.{Service, credit_user, resolve_group}
use giosk.Wallet.Service.Credit.{credit_user-pool, resolve_group-same}
use giosk.TopUp.{
  Status, approved, Request, State, is_pending, statement, found, get, reviewed, write_review,
  mark_reviewed, credit, approve_found, approve,
}
use giosk.TopUp.Review.{statement_elim, Row}

-- Nothing but the schedule of faults has changed.
abbrev pub Untouched : State → State → Type 0
Untouched s s' = (s'.requests ≡ s.requests) × (s'.db ≡ at s.db s'.db.faults)

-- What the approval of a request that has been reviewed comes to.
abbrev pub Refused : State → Result (Unit {0}) × State → Type 0
Refused s (ok _, s') = ⊥
Refused s (err e, s') = ((e ≡ already_reviewed) ⊎ (e ≡ db_error)) × Untouched s s'

-- The approval of a request that has been reviewed credits nobody: it fails, because of the review or
-- of the statement that reads the request, and changes no table.
pub approve-Refused :
    (svc : Service) (i by : ℕ) (q : Request) (s : State)
    → is_pending q ≡ false
    → Row i q s
    → Refused s (approve svc i by s)
unfolding approve get found approve_found
approve-Refused svc i by q s closed row =
    statement_elim
      (λ r. Refused s (elim r.0 as (λ _. Result (Unit {0}) × State) [
        | ok p ↦ approve_found svc i by p r.1
        | err e ↦ (err e, r.1)
      ]))
      (found i) s (λ fs. (inr refl, (refl, refl))) (λ fs. looked fs)
  where
    looked :
        (fs : List Bool)
        → Refused s (
            let r = found i (record s { db = at s.db fs }) in
            elim r.0 as (λ _. Result (Unit {0}) × State) [
              | ok p ↦ approve_found svc i by p r.1
              | err e ↦ (err e, r.1)
            ])
    looked fs =
        let here : found i (record s { db = at s.db fs }) ≡ (ok q, record s { db = at s.db fs }) =
          rw (found, row) refl in
        subst
          (λ (r : Result Request × State). Refused s (elim r.0 as (λ _. Result (Unit {0}) × State) [
            | ok p ↦ approve_found svc i by p r.1
            | err e ↦ (err e, r.1)
          ]))
          (sym here) (rw closed (inl refl, (refl, refl)))

statement-clear :
    {A : Type 0} (f : State → Result A × State) (s : State)
    → s.db.faults ≡ []
    → statement f s ≡ f (record s { db = at s.db [] })
unfolding statement
statement-clear {A} f s clear =
    ap
      (λ (r : Result (Unit {0}) × Db). elim r.0 as (λ _. Result A × State) [
        | ok _ ↦ f (record s { db = r.1 })
        | err e ↦ (err e, record s { db = r.1 })
      ])
      (attempt-clear (λ d. (tt, d)) s.db clear)

mark_reviewed-clear :
    (i by : ℕ) (status : Status) (s : State)
    → s.db.faults ≡ []
    → mark_reviewed i by status s
      ≡ (ok tt, record s { requests = reviewed i by status s.requests; db = at s.db [] })
unfolding mark_reviewed write_review
mark_reviewed-clear i by status s clear = statement-clear (write_review i by status) s clear

module _ (svc : Service) (q : Request) (pooled : svc.pool ≡ true) (user : q.target_type ≡ "user")
    (positive : pos 0 <ℤ q.amount) where
  abbrev wallet_of : Db → ℕ
  wallet_of d = resolve_group svc d q.target_id 0

  -- What the approval of a request that was read as waiting leaves: the wallet is credited, the pool of
  -- the organisation pays, and who belongs where is as before.
  abbrev Approved : ℕ → Db → Db → Type 0
  Approved o d e =
      (e.faults ≡ [])
      × (bal e q.target_id (wallet_of d) ≡ bal d q.target_id (wallet_of d) +ℤ q.amount)
      × (e.organizations ≡ add_pool_rows o (pos 0 -ℤ q.amount) d.organizations)
      × (e.memberships ≡ d.memberships)
      × (e.groups ≡ d.groups)

  approve_found-Approved :
      (i by o : ℕ) (s : State)
      → is_pending q ≡ true
      → s.db.faults ≡ []
      → org_of_user s.db q.target_id ≡ some o
      → covers_pool o q.amount s.db.organizations ≡ true
      → (t : State) × ((approve_found svc i by q s ≡ (ok tt, t)) × Approved o s.db t.db)
  unfolding approve_found credit
  approve_found-Approved i by o s waiting clear org covers =
      let (b, e, runs, after, gained, orgs, members, groups) =
        credit_user-pool svc q.target_id o q.amount "topup approved" (some by) s.db pooled
          (ground (arith, positive)) clear org covers in
      let credited : credit svc q.target_type q.target_id q.amount by s.db ≡ (ok tt, e) = rw user (
        bind_ok (credit_user svc q.target_id 0 q.amount "topup approved" (some by)) (λ _. pure tt)
          s.db runs) in
      (
        record s { requests = reviewed i by approved s.requests; db = at e [] },
        (
          rw waiting (
              ap
                (λ (r : Result (Unit {0}) × Db). elim r.0 as (λ _. Result (Unit {0}) × State) [
                  | ok _ ↦ mark_reviewed i by approved (record s { db = r.1 })
                  | err x ↦ (err x, record s { db = r.1 })
                ])
                credited
              ∙ mark_reviewed-clear i by approved (record s { db = e }) after),
          (refl, gained, orgs, members, groups),
        ),
      )

  -- With the organisations' pools attached, as in the program: two reviewers that both read a
  -- request for a user's credit while it was waiting both approve it, the one after the other,
  -- where no statement fails and the pool of the user's organisation covers the amount twice;
  -- the user's wallet is credited twice.
  pub approve_found-twice :
      (i by by' o : ℕ) (s : State)
      → is_pending q ≡ true
      → s.db.faults ≡ []
      → org_of_user s.db q.target_id ≡ some o
      → covers_pool o (q.amount +ℤ q.amount) s.db.organizations ≡ true
      → let first = approve_found svc i by q s in
        let second = approve_found svc i by' q first.1 in
        let h = resolve_group svc s.db q.target_id 0 in
        (first.0 ≡ ok tt)
        × ((second.0 ≡ ok tt)
            × (bal second.1.db q.target_id h ≡ bal s.db q.target_id h +ℤ q.amount +ℤ q.amount))
  approve_found-twice i by by' o s waiting clear org covers =
      let (enough, again) = covers_pool-again o q.amount s.db.organizations positive covers in
      let (t, (one, (after, gained, orgs, members, groups))) =
        approve_found-Approved i by o s waiting clear org enough in
      let (u, (two, (_, more, _, _, _))) =
        approve_found-Approved i by' o t waiting after
          (org_of_user-same q.target_id t.db s.db members groups ∙ org)
          (ap (covers_pool o q.amount) orgs ∙ again) in
      let same : wallet_of t.db ≡ wallet_of s.db =
        resolve_group-same svc q.target_id 0 t.db s.db members in
      rw (one, two)
        (
          refl,
          (
            refl,
            subst (λ h. bal u.db q.target_id h ≡ bal t.db q.target_id h +ℤ q.amount) same more
                ∙ ap (λ z. z +ℤ q.amount) gained,
          ),
        )
