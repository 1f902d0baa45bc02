-- ===== src/Resource/Tests.antt =====
-- Runs of the gate on two nodes of four GPUs each, of which HAMi shares out the second.
use giosk.Prelude.{
  ◌≤◌, ◌≡◌, ◌↔◌, refl, true, false, none, some, List, [], ◌∷◌, String, str_eq, pos, ◌-ℤ◌, not,
  any_where, All, Elem, arith,
}
use giosk.Session.Limits.{Phase}
use giosk.Resource.Counter.{
  GpuMode, Row, NodeRow, running_by_node, reserved_gpus, physical_node, hami_node, split_count_of,
  shared_usage, reserved_shared,
}
use giosk.Resource.Availability.{
  LiveNode, NodeAvail, atoi_safe, by_node, Availability, availability,
}
use giosk.Resource.Availability.Totals.{entry_of, IsSumOf, availability-IsSumOf}
use giosk.Resource.Availability.Within.{IsWithin}
use giosk.Resource.Placement.{
  PlaceReq, Hold, is_unknown, can_place, can_place_on_node, node_supports, hold_of,
}
use giosk.Resource.Placement.Booking.{
  request, IsNew, tables, Goes, scheduled, created, change, Reach, here, next, needed, capacity,
  has_gpus,
}
use giosk.Resource.Placement.Booked.{Reach-within}
use giosk.Resource.Placement.Pinned.{can_place_on_node-unsupported}
use giosk.Resource.Placement.Shares.{HasRoom, view, can_place-HasRoom}
use giosk.Resource.ShareMode.{
  inside, outside, Scheduler, share_mode_reqs, share_mode_allows, meets, label_value,
}
use giosk.Resource.ShareMode.Affinity.{share_mode_allows-meets}

abbrev machine : String → LiveNode
machine name = record {
  name = name;
  gpu_type = "A100";
  gpu_capacity = "4";
  gpu_mem_mb = 40960;
  physical = false;
}

abbrev machines : List LiveNode
machines = machine "n1" ∷ machine "n2" ∷ []

abbrev settings : List NodeRow
settings =
    record { name = "n1"; hami = false; split_count = pos 10 }
    ∷ record { name = "n2"; hami = true; split_count = pos 10 }
    ∷ []

abbrev asks : GpuMode → Row
asks mode = record {
  node = "";
  gpu_type = "A100";
  mode = mode;
  gpu_count = pos 3;
  vram_mb = pos 0;
  core_percent = pos 0;
  ssh = false;
  phase = Phase.provisioning;
}

three-fit : can_place (tables settings []) (some machines) (request (asks GpuMode.exclusive)) ≡ true
unfolding ◌-ℤ◌ can_place availability by_node atoi_safe running_by_node reserved_gpus physical_node
    hami_node split_count_of shared_usage reserved_shared
three-fit = refl

-- A session for three GPUs is created and put on the first machine.
abbrev at_n1 : Row
at_n1 = record (asks GpuMode.exclusive) { node = "n1" }

IsNew-ask : IsNew (asks GpuMode.exclusive)
IsNew-ask = record { waits = refl; nowhere = refl; container = refl; counted = refl }

room-on_n1 : Goes settings machines (asks GpuMode.exclusive ∷ []) (asks GpuMode.exclusive) "n1"
unfolding running_by_node atoi_safe
room-on_n1 = ((λ e. (refl, omega arith)), ((λ e. (refl, omega arith)), tt))

placed : Reach settings machines (at_n1 ∷ [])
placed =
    next (next here (created [] (asks GpuMode.exclusive) IsNew-ask three-fit))
      (change [] [] (asks GpuMode.exclusive) at_n1 (scheduled "n1" refl refl refl room-on_n1))

some_gpus : has_gpus machines ≡ true
unfolding atoi_safe
some_gpus = refl

Reach-within_example :
    ((t : String)
      → str_eq t "" ≡ false
      → needed settings machines t (at_n1 ∷ []) ≤ capacity settings machines t)
    × All
        (λ (n : LiveNode).
          hami_node settings n.name ≡ false
          → running_by_node (at_n1 ∷ []) n.name ≤ atoi_safe n.gpu_capacity)
        machines
Reach-within_example = Reach-within settings machines ((refl, tt), (tt, tt)) some_gpus placed

-- Two more do not fit.
three-do_not_fit_twice :
    can_place (tables settings (at_n1 ∷ [])) (some machines) (request (asks GpuMode.exclusive))
    ≡ false
unfolding ◌-ℤ◌ can_place availability by_node atoi_safe running_by_node reserved_gpus physical_node
    hami_node split_count_of shared_usage reserved_shared
three-do_not_fit_twice = refl

availability-IsSumOf_example :
    let av = availability (tables settings (at_n1 ∷ [])) (some machines) in
    IsSumOf "A100" (entry_of "A100" av.by_type) av.by_node × All IsWithin av.by_node
availability-IsSumOf_example =
    availability-IsSumOf (tables settings (at_n1 ∷ [])) machines "A100"
      ((ground arith, ground arith), tt)

abbrev share_mode : Scheduler
share_mode = record {
  satisfies = λ q label. elim q.operator [
    | inside ↦ elim label [ none ↦ false | some v ↦ any_where (str_eq v) q.values ]
    | outside ↦ elim label [ none ↦ true | some v ↦ not (any_where (str_eq v) q.values) ]
  ];
  in_missing = λ vs. refl;
  in_present = λ vs v. refl;
  not_in_missing = λ vs. refl;
  not_in_present = λ vs v. refl;
}

share_mode_allows-meets_example :
    meets share_mode (share_mode_reqs GpuMode.exclusive) (some "hami")
    ≡ share_mode_allows GpuMode.exclusive (label_value (some "hami"))
share_mode_allows-meets_example = share_mode_allows-meets share_mode GpuMode.exclusive (some "hami")

abbrev half : PlaceReq
half = record {
  mode = GpuMode.shared;
  gpu_type = "A100";
  gpu_count = pos 1;
  vram_mb = pos 20480;
  core_percent = pos 50;
  node = "";
}

cluster-known : is_unknown (availability (tables settings []) (some machines)) ≡ false
unfolding availability by_node atoi_safe hami_node physical_node
cluster-known = refl

can_place-HasRoom_example : (can_place (tables settings []) (some machines) half ≡ true) ↔ (
    (n : NodeAvail) × (Elem n (view (tables settings []) machines half).by_node
      × HasRoom half (hold_of (tables settings []) "A100").share n))
can_place-HasRoom_example =
    can_place-HasRoom (tables settings []) machines half refl refl refl cluster-known

abbrev shared_out : NodeAvail
shared_out = record {
  node = "n2";
  gpu_type = "A100";
  gpu_total = 4;
  gpu_free = 4;
  physical = false;
  fractional = true;
  vram_total = 163840;
  vram_free = 163840;
  cores_total = 400;
  cores_free = 400;
  slots_total = 40;
  slots_free = 40;
}

abbrev on_n2 : PlaceReq
on_n2 = record {
  mode = GpuMode.exclusive;
  gpu_type = "A100";
  gpu_count = pos 2;
  vram_mb = pos 0;
  core_percent = pos 0;
  node = "n2";
}

abbrev one_node : Availability
one_node = record { by_type = []; by_node = shared_out ∷ [] }

abbrev nothing_held : Hold
nothing_held = record { gpus = 0; share = record { vram_mb = pos 0; cores = pos 0; count = 0 } }

can_place_on_node-unsupported_example :
    (can_place_on_node one_node on_n2 nothing_held ≡ true)
    × (node_supports one_node "n2" (some GpuMode.exclusive) ≡ (false, true))
can_place_on_node-unsupported_example =
    can_place_on_node-unsupported one_node on_n2 nothing_held shared_out refl refl refl refl refl
      refl (omega arith)
