-- ===== src/Volume/Tests.antt =====
-- Runs of the volumes of a user 1 in the team 7.
use giosk.Prelude.{
  ◌*◌, ◌/◌, ◌≡◌, ◌<ℤ◌, ◌+ℤ◌, ◌↔◌, refl, inr, true, none, some, [], ◌∷◌, pos, pos_part, arith,
}
use giosk.Wallet.Tests.{tables, service}
use giosk.Volume.Store.{Volume, Share, Store, Kind, Status, Error, ok, err}
use giosk.Volume.Quota.{Service, Provisioner, CreateReq, quota_for, create, list_quota}
use giosk.Volume.Quota.Tables.{TeamWithin, empty-Inv}
use giosk.Volume.Quota.Reach.{created, shared, here, next, Reach-TeamWithin}
use giosk.Volume.Quota.Shown.{shown, list_quota-create}
use giosk.Volume.Sharing.{Target, grant, volume_access, share}
use giosk.Volume.Sharing.Access.{Regranted, share-Regranted, share-opens}
use giosk.Volume.Billing.{Meter, bill_storage_once}
use giosk.Volume.Billing.Paid.{FairTo, bill_storage_once-FairTo}

abbrev scratch : Volume
scratch = record {
  id = 4;
  name = "scratch";
  kind = Kind.personal;
  owner_user_id = some 1;
  group_id = some 7;
  size_gib = pos 40;
  pvc_name = "vol-4";
  pvc_namespace = "giosk-user-1";
  nfs_server = "";
  nfs_path = "";
  status = Status.bound;
  billed_credits = pos 2;
  created_at = 0;
}

abbrev lent : Share
lent = record {
  volume_id = 4;
  shared_with_user_id = some 2;
  shared_with_group_id = none;
  permission = "rw";
}

abbrev held_store : Store
held_store = record {
  volumes = scratch ∷ [];
  shares = lent ∷ [];
  users = record { id = 1; username = "kim" } ∷ record { id = 2; username = "lee" } ∷ [];
  next_id = 5;
  wallets = record tables { faults = [] };
}

abbrev volumes_service : Service
volumes_service = record {
  ns_prefix = "giosk-";
  total_gib = pos 100;
  limits = none;
  charger = some service;
  price = pos 3;
  homes_fn = none;
}

abbrev cluster : Provisioner
cluster = record {
  create_pvc = λ ns name size. true;
  ensure_shared_nfs_pvc = λ ns name server path size. true;
}

abbrev asked : CreateReq
asked = record { name = "data"; size_gib = pos 30 }

-- Reading and writing is taken back to reading.
share-Regranted_example :
    Regranted held_store 4 "lee" "ro"
      (record { id = 2; username = "lee" })
      refl
      refl
      refl
      (inr refl, tt)
      (share 4 (record { target = Target.user; value = "lee"; permission = "ro" }) held_store)
share-Regranted_example =
    share-Regranted held_store 4 "lee" "ro" (record { id = 2; username = "lee" }) refl refl refl
      (inr refl, tt)

share-opens_example :
    volume_access
      (share 4
        (record { target = Target.user; value = "lee"; permission = "rw" })
        (record held_store { shares = [] })).1
      4
      2
    ≡ grant scratch (some "rw")
share-opens_example =
    share-opens (record held_store { shares = [] }) 4 "lee" (record { id = 2; username = "lee" })
      scratch refl refl refl tt refl refl refl

-- A hundredth of the month's cost for each nanosecond.
abbrev by_hundredth : Meter
by_hundredth cost elapsed = pos (pos_part cost * elapsed / 100)

bill_storage_once-FairTo_example :
    FairTo 1 7
      (scratch ∷ [])
      tables
      (bill_storage_once by_hundredth volumes_service service 10 (scratch ∷ []) tables)
bill_storage_once-FairTo_example =
    bill_storage_once-FairTo by_hundredth volumes_service service 10 (scratch ∷ []) tables 1 7
      ((λ e. ground (arith, e)), tt)

abbrev empty_store : Store
empty_store = record held_store { volumes = []; shares = [] }

Reach-TeamWithin_example :
    TeamWithin volumes_service
      (share 5
        (record { target = Target.user; value = "lee"; permission = "ro" })
        ((create volumes_service cluster 9 1 7 asked empty_store).1)).1.volumes
Reach-TeamWithin_example =
    Reach-TeamWithin volumes_service
      (next (next here (created cluster 9 1 7 asked (ground arith) tt))
        (shared 5 (record { target = Target.user; value = "lee"; permission = "ro" })))
      (empty-Inv volumes_service 5 (ground arith))

list_quota-create_example :
    ((list_quota volumes_service 1 held_store).0
      ≡ ok (shown volumes_service cluster 9 1 asked held_store tt))
    × (((create volumes_service cluster 9 1 0 asked held_store).0 ≡ err Error.quota_exceeded)
        ↔ (pos 100 <ℤ pos 70))
unfolding quota_for ◌+ℤ◌
list_quota-create_example = list_quota-create volumes_service cluster 9 1 asked held_store tt
