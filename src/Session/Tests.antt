-- ===== src/Session/Tests.antt =====
-- Runs of the biller, of the gate and of the home reaper on a user 1 of the group 7.
use giosk.Prelude.{
  ◌*◌, ◌⊎◌, ◌/◌, ◌≡◌, refl, true, false, none, some, List, [], ◌∷◌, pos, pos_part, arith, int_laws,
  All,
}
use giosk.Policy.Resolver.{Resolver}
use giosk.Wallet.Db.{Db}
use giosk.Wallet.Tests.{tables, service}
use giosk.Session.Billing.StorageCharges.{biller, total_of}
use giosk.Session.Billing.{Session, running, stopped, Meter, settle, settle_storage}
use giosk.Session.Billing.Charges.{due_of}
use giosk.Session.Billing.Works.{
  Charged, Halted, settle-Charged, StorageCharged, storage_owed, settle_storage-StorageCharged,
}
use giosk.Session.Billing.Once.{bill_once}
use giosk.Session.Billing.Once.Paid.{FairTo, bill_once-FairTo}
use giosk.Session.Billing.Storage.{storage_due_of-monotone}
use giosk.Session.Limits.{Row, Gate, Phase}
use giosk.Session.Lifecycle.{stop_session, auto_stop}
use giosk.Session.Lifecycle.Stops.{Ended, stop_session-Ended}
use giosk.Session.Lease.{Lease, Leased, extend, lease_tick}
use giosk.Session.Lease.Capped.{Reach, Step}
use giosk.Session.Lease.Expires.{Within, Reach-Within}
use giosk.Session.HomeReaper.{Stopped, reap_stale_homes}
use giosk.Session.HomeReaper.Spared.{Reclaimed, reap_stale_homes-Reclaimed}

abbrev container : Session
container = record {
  instance_id = "i-1";
  ssh = false;
  user_id = 1;
  group_id = some 7;
  phase = running;
  price_per_hour = pos 36;
  started_at = some 1000000000;
  billed_credits = pos 3;
  stopped_since = none;
  stopped_seconds = 0;
  storage_billed_credits = pos 0;
}

abbrev halted : Session
halted = record container { phase = stopped; stopped_since = some 3000000000 }

-- The price per hour by whole seconds.
abbrev by_second : Meter
by_second price elapsed = pos (pos_part price * (elapsed / 1000000000) / 3600)

abbrev limited : Resolver
limited = record {
  repo = record { user_limits = λ u. none; group_limits = λ g. none; org_limits = λ o. none };
  hier = record { group_of_user = λ u. none; org_of_user = λ u. none; org_of_group = λ g. none };
  global_fn = some (record {
    max_gpu = pos 2;
    max_vram_gb = pos 80;
    max_volume_gib = pos 100;
    max_concurrent_sessions = pos 2;
    max_stopped_sessions = pos 1;
    max_ephemeral_gib = pos 20;
  });
}

abbrev gate : Gate
gate = record {
  limits = some limited;
  max_stopped = pos 1;
  session_home_gib = pos 10;
  volume_used = some (λ u. pos 30);
  balance = some (λ u g. pos 100);
  can_place = none;
  counts_active = true;
  counts_stopped = true;
  sums_homes = true;
}

abbrev asked : Row
asked = record {
  user_id = 1;
  group_id = some 7;
  ssh = false;
  phase = Phase.provisioning;
  gpu_count = pos 1;
  vram_mb = pos 40960;
  home_gib = some (pos 20);
  price_per_hour = pos 36;
}

abbrev held : List Row
held = record asked { phase = Phase.running } ∷ record asked { user_id = 2 } ∷ []

abbrev homes : List Stopped
homes =
    record { instance_id = "i-1"; user_id = 1; stopped_since = some 5 }
    ∷ record { instance_id = "i-2"; user_id = 1; stopped_since = some 7 }
    ∷ record { instance_id = "i-3"; user_id = 2; stopped_since = some 6 }
    ∷ []

reap_stale_homes-Reclaimed_example :
    All (Reclaimed 1 86400000000010 homes) (reap_stale_homes 1 86400000000010 homes)
reap_stale_homes-Reclaimed_example = reap_stale_homes-Reclaimed 1 86400000000010 homes

-- The older home of the user 1 is the only one that goes.
reaped :
    reap_stale_homes 1 86400000000010 homes
    ≡ record { instance_id = "i-1"; user_id = 1; stopped_since = some 5 } ∷ []
unfolding reap_stale_homes
reaped = refl

abbrev clear : Db
clear = record tables { faults = [] }

settle-Charged_example :
    Charged service clear container
      (due_of service clear container by_second 3601000000000 1000000000)
      (settle by_second (some service) 3601000000000 false container clear)
    ⊎ Halted service clear container 3601000000000
        (due_of service clear container by_second 3601000000000 1000000000)
        (settle by_second (some service) 3601000000000 false container clear)
settle-Charged_example =
    settle-Charged service clear container by_second 3601000000000 1000000000 refl (ground arith)
      refl (omega int_laws)

settle_storage-StorageCharged_example :
    StorageCharged service clear halted 2628003000000000
      (total_of service clear halted 2628003000000000 3000000000)
      (storage_owed service clear halted (pos 5) 2628003000000000 3000000000)
      (settle_storage
        (biller service clear halted (pos 5) 2628003000000000 3000000000)
        2628003000000000
        halted
        clear)
settle_storage-StorageCharged_example =
    settle_storage-StorageCharged service clear halted (pos 5) 2628003000000000 3000000000 refl
      (ground arith) refl
      (rw ((storage_due_of-monotone 5 2628000 2628000 (ground arith) (ground arith)).1)
        (omega int_laws))

bill_once-FairTo_example : FairTo 1 7 (container ∷ halted ∷ []) tables (
    bill_once by_second
      (record { storage_price = pos 5; charger = some service })
      3601000000000
      (container ∷ halted ∷ [])
      tables)
bill_once-FairTo_example =
    bill_once-FairTo by_second (record { storage_price = pos 5; charger = some service })
      3601000000000 (container ∷ halted ∷ []) tables 1 7
      ((λ e. ground (arith, e)), ((λ e. ground (arith, e)), tt))

stop_session-Ended_example :
    Ended service clear container
      (due_of service clear container by_second 3601000000000 1000000000)
      (stop_session by_second (some service) true 3601000000000 container clear)
    × Ended service clear container
        (due_of service clear container by_second 3601000000000 1000000000)
        (auto_stop by_second (some service) 3601000000000 container clear)
stop_session-Ended_example =
    stop_session-Ended service clear container by_second 3601000000000 1000000000 refl true

-- Two hours, and two more for each of at most three extensions.
abbrev lease : Lease
lease = record {
  dynamic = true;
  max_hours = pos 2;
  extension_hours = pos 2;
  max_extensions = pos 3;
}

abbrev created : List Leased
created = record { session = container; extensions_used = 0 } ∷ []

-- One extension by its owner.
abbrev leased : List Leased
leased = (extend lease "i-1" 1 created clear).1

leased-Reach : Reach lease leased
leased-Reach =
    Reach.next (Reach.next Reach.empty (Step.creates container []))
      (Step.extends "i-1" 1 created clear)

Reach-Within_example :
    All
      (Within lease 3 28801000000000)
      (lease_tick lease by_second (some service) 28801000000000 leased clear).0
Reach-Within_example =
    Reach-Within lease 3 refl (ground arith) (ground arith) by_second (some service) 28801000000000
      refl leased-Reach clear refl
