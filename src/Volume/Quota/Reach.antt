-- ===== src/Volume/Quota/Reach.antt =====
-- Whatever users do in whatever order, no team is above its quota.
use giosk.Prelude.{ℕ, Bool, List, pos, ◌≤ℤ◌}
use giosk.Wallet.Service.{Service as Charger}
use giosk.Volume.Store.{Store}
use giosk.Volume.Store.Statements.{at, Readable, Readable2}
use giosk.Volume.Sharing.{ShareReq, share}
use giosk.Volume.Sharing.Elsewhere.{share-keeps}
use giosk.Volume.Billing.{Meter, bill_storage_once}
use giosk.Volume.Billing.Rows.{bill_storage_once-Inv}
use giosk.Volume.Quota.{Service, Provisioner, CreateReq, create, set_volume_team, delete}
use giosk.Volume.Quota.Tables.{TeamWithin, Inv}
use giosk.Volume.Quota.Within.{create-Kept}
use giosk.Volume.Quota.Moves.{set_volume_team-Kept, delete-Kept}

module _ (svc : Service) where
  -- The operations of users and the tick of the biller. Any statement may fail, but for the sums that
  -- are compared with the quota; sizes asked for are not negative.
  pub data Step (s : Store) : Store → Type 0 where
    created :
        (prov : Provisioner) (now u g : ℕ) (req : CreateReq)
        → pos 0 ≤ℤ req.size_gib
        → Readable s.wallets.faults
        → Step s ((create svc prov now u g req s).1)
    moved : (u i g : ℕ) → Readable2 s.wallets.faults → Step s ((set_volume_team svc u i g s).1)
    deleted : (i u : ℕ) → Step s ((delete i u s).1)
    shared : (i : ℕ) (req : ShareReq) → Step s ((share i req s).1)
    billed :
        (meter : Meter) (priced : Service) (w : Charger) (now : ℕ)
        → Step s (record s {
          volumes = (bill_storage_once meter priced w now s.volumes s.wallets).0;
          wallets = (bill_storage_once meter priced w now s.volumes s.wallets).1;
        })
    scheduled : (fs : List Bool) → Step s (at s fs)

  pub data Reach (s : Store) : Store → Type 0 where
    here : Reach s s
    next : {t t' : Store} → Reach s t → Step t t' → Reach s t'

  Step-Inv : {s t : Store} → Step s t → Inv svc s.volumes s.next_id → Inv svc t.volumes t.next_id
  Step-Inv {s} (created prov now u g req positive readable) inv =
      create-Kept svc prov now u g req positive s readable inv
  Step-Inv {s} (moved u i g readable) inv = set_volume_team-Kept svc u i g s readable inv
  Step-Inv {s} (deleted i u) inv = delete-Kept svc i u s inv
  Step-Inv {s} (shared i req) inv = share-keeps (Inv svc) i req s inv
  Step-Inv {s} (billed meter priced w now) inv =
      bill_storage_once-Inv meter svc priced w now s.next_id s.volumes s.wallets inv
  Step-Inv (scheduled fs) inv = inv

  Reach-Inv : {s t : Store} → Reach s t → Inv svc s.volumes s.next_id → Inv svc t.volumes t.next_id
  Reach-Inv here inv = inv
  Reach-Inv (next path step) inv = Step-Inv step (Reach-Inv path inv)

  -- From a table in which no team is above its quota, sizes are not negative and ids have been given
  -- out once, whatever users create, move, delete and share in whatever order, with ticks of the
  -- biller between and whatever other statement fails, what a user has in a team stays within the
  -- limit of the team, as long as the sums are read and the sizes asked for are not negative.
  pub Reach-TeamWithin :
      {s t : Store} → Reach s t → Inv svc s.volumes s.next_id → TeamWithin svc t.volumes
  Reach-TeamWithin path inv = (Reach-Inv path inv).3
