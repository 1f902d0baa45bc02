-- ===== src/Session/Billing/Once/Paid.antt =====
-- In a tick of the biller no wallet is billed for more than it pays.
use giosk.Prelude.{ℕ, ◌≢◌, sym, subst, Option, List, ℤ, ◌+ℤ◌, ◌≤ℤ◌, int_laws, All}
use giosk.Wallet.Db.{Db}
use giosk.Wallet.Db.Faults.{at}
use giosk.Wallet.Store.Effects.{bal}
use giosk.Wallet.Service.Passes.{over_rows, billed_total, listed-Passed, over_rows-Passed}
use giosk.Wallet.Service.Passes
use giosk.Session.Billing.{Session, Biller, Meter, group_or_zero}
use giosk.Session.Billing.Once.{bill_running_row, bill_stopped_row, bill_stopped_storage, bill_once}
use giosk.Session.Billing.Once.Fair.{Fair, running-Fair, stopped_row-Fair, billed}

-- The session has a group that pays for it.
abbrev Named : Session → Type 0
Named s = group_or_zero s.group_id ≢ 0

abbrev pub AllNamed : List Session → Type 0
AllNamed rows = All Named rows

-- No wallet, with what its sessions have been billed, is worth more than before.
abbrev pub FairTo : ℕ → ℕ → List Session → Db → List Session × Db → Type 0
FairTo = Passes.FairTo Named billed

abbrev Passed : List Session → Db → List Session × Db → Type 0
Passed = Passes.Passed Named billed

later : (x y z a b c : ℤ) → y +ℤ b ≤ℤ x +ℤ a → z +ℤ c ≤ℤ y +ℤ b → z +ℤ c ≤ℤ x +ℤ a
later x y z a b c p q = omega (int_laws, p, q)

turn :
    (f : Session → Db → Session × Db)
    → ((s : Session) (d : Db) → Named s → Fair s d (f s d))
    → (s : Session) (d : Db) → Named s
    → Passes.Fair Named billed s d (f s d)
turn f fair s d named =
    let (kept, paid) = fair s d named in
    (subst (λ (g : Option ℕ). group_or_zero g ≢ 0) (sym kept.1) named, paid)

storage-Passed :
    (b : Biller) (now : ℕ) (rows : List Session) (d : Db)
    → AllNamed rows
    → Passed rows d (bill_stopped_storage b now rows d)
unfolding bill_stopped_storage
storage-Passed b now rows d named =
    listed-Passed Named billed (over_rows (bill_stopped_row b now)) rows d named (λ fs.
      over_rows-Passed Named billed (bill_stopped_row b now)
        (turn (bill_stopped_row b now) (stopped_row-Fair b now)) rows (at d fs) named)

module _ (meter : Meter) (b : Biller) (now : ℕ) (rows : List Session) (d : Db) where
  -- In a tick of the biller over all sessions, where each has a group, what a wallet holds and what its
  -- sessions have been billed, for running and for storage, do not grow together, whatever query,
  -- charge or write fails: no session is billed for what its wallet did not pay.
  pub bill_once-FairTo :
      (u h : ℕ) → AllNamed rows → FairTo u h rows d (bill_once meter b now rows d)
  unfolding bill_once
  bill_once-FairTo u h named =
      (listed-Passed Named billed both rows d named (λ fs. worked (at d fs))).1 u h
    where
      both : List Session → Db → List Session × Db
      both rs e =
          let (rs', e') = over_rows (bill_running_row meter b now) rs e in
          bill_stopped_storage b now rs' e'

      worked : (e : Db) → Passed rows e (both rows e)
      worked e =
          let first = over_rows (bill_running_row meter b now) rows e in
          let (named', passed) =
            over_rows-Passed Named billed (bill_running_row meter b now)
              (turn (bill_running_row meter b now) (running-Fair meter b now)) rows e named in
          let (named'', passed') = storage-Passed b now first.0 first.1 named' in
          (
            named'',
            λ v k.
                later (bal e v k) (bal first.1 v k) (bal (both rows e).1 v k)
                  (billed_total Named billed v k rows) (billed_total Named billed v k first.0)
                  (billed_total Named billed v k (both rows e).0) (passed v k) (passed' v k),
          )
