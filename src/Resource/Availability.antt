-- ===== src/Resource/Availability.antt =====
-- backend/internal/resource/availability.go: the free GPUs by node and by type. What is for display only is
-- left out: the label of a node, its cached data sets, the free units in float64, the order of the types.
pub mod Within
pub mod Totals
use giosk.Prelude.{
  ℕ, ◌+◌, ◌-◌, ◌*◌, Bool, true, false, ◌&&◌, not, Option, none, some, List, [], ◌∷◌, String, str_eq,
  ℤ, pos, pos_part, ◌-ℤ◌, leb_ℤ, ltb, leb, ◌==◌, if◌then◌else◌,
}
use giosk.Prelude.Text.{codes}
use giosk.Resource.Counter.{
  Row, NodeRow, ShareUse, running_by_node, physical_node, hami_node, split_count_of, shared_usage,
}

-- What Availability reads of a node of the cluster.
pub record LiveNode : Type 0 where
  pub name : String
  pub gpu_type : String
  pub gpu_capacity : String
  pub gpu_mem_mb : ℕ
  pub physical : Bool

digits : ℕ → List ℕ → ℕ
digits n [] = n
digits n (c ∷ cs) =
    let rest = digits (n * 10 + (c - b'0')) cs in if leb b'0' c && leb c b'9' then rest else n

-- atoiSafe
unfoldable pub atoi_safe : String → ℕ
unfolding digits
atoi_safe s = digits 0 (codes s)

-- clampNonNeg
abbrev pub clamp_non_neg : ℤ → ℕ
clamp_non_neg = pos_part

pub record NodeAvail : Type 0 where
  pub node : String
  pub gpu_type : String
  pub gpu_total : ℕ
  pub gpu_free : ℕ
  pub physical : Bool
  pub fractional : Bool
  pub vram_total : ℕ
  pub vram_free : ℕ
  pub cores_total : ℕ
  pub cores_free : ℕ
  pub slots_total : ℕ
  pub slots_free : ℕ

-- TypeAvail with its entries of usedByType and fracFreeByType.
pub record TypeAvail : Type 0 where
  pub gpu_type : String
  pub nodes : ℕ
  pub total : ℕ
  pub used_by_type : ℕ
  pub fractional_total : ℕ
  pub fractional_free : ℕ
  pub vram_total : ℕ
  pub vram_free : ℕ
  pub cores_total : ℕ
  pub cores_free : ℕ
  pub slots_total : ℕ
  pub slots_free : ℕ

abbrev pub no_gpus : String → TypeAvail
no_gpus t = record {
  gpu_type = t;
  nodes = 0;
  total = 0;
  used_by_type = 0;
  fractional_total = 0;
  fractional_free = 0;
  vram_total = 0;
  vram_free = 0;
  cores_total = 0;
  cores_free = 0;
  slots_total = 0;
  slots_free = 0;
}

-- The rows that the query of each counter gives: RunningByNode, RunningPhysicalNodes,
-- SharedUsageByNode and Reserved of the sessions, HamiNodes and NodeSplitCount of the nodes. A query
-- that fails gives none, as its error is dropped.
pub record Tables : Type 0 where
  pub running : List Row
  pub leased : List Row
  pub sharing : List Row
  pub reserved : List Row
  pub hami : List NodeRow
  pub splits : List NodeRow

-- The GPUs in use on a node of `cap` GPUs: all of a leased machine, and never more than there are.
unfoldable pub used_of : Tables → String → ℕ → ℕ
used_of db name cap =
    let used = running_by_node db.running name in
    if physical_node db.leased name then cap else if ltb cap used then cap else used

-- A node that is shared out in fractions.
abbrev pub is_fractional : Tables → String → Bool
is_fractional db name = hami_node db.hami name && not (physical_node db.leased name)

abbrev split_of : Tables → String → ℕ
split_of db name =
    let split = split_count_of db.splits name in if leb_ℤ split (pos 0) then 10 else pos_part split

whole : LiveNode → ℕ → ℕ → NodeAvail
whole n cap used = record {
  node = n.name;
  gpu_type = n.gpu_type;
  gpu_total = cap;
  gpu_free = cap - used;
  physical = n.physical;
  fractional = false;
  vram_total = 0;
  vram_free = 0;
  cores_total = 0;
  cores_free = 0;
  slots_total = 0;
  slots_free = 0;
}

-- The entry of a node with `cap` GPUs in ByNode.
pub node_avail : Tables → LiveNode → ℕ → NodeAvail
unfolding whole used_of
node_avail db n cap =
    let na = whole n cap (used_of db n.name cap) in
    let u = shared_usage db.sharing n.name in
    if is_fractional db n.name
    then record na {
      fractional = true;
      vram_total = n.gpu_mem_mb * cap;
      vram_free = clamp_non_neg (pos (n.gpu_mem_mb * cap) -ℤ u.vram_mb);
      cores_total = 100 * cap;
      cores_free = clamp_non_neg (pos (100 * cap) -ℤ u.cores);
      slots_total = split_of db n.name * cap;
      slots_free = split_of db n.name * cap - u.count;
    }
    else na

-- What a node adds to the entry of its type.
add_node : NodeAvail → TypeAvail → TypeAvail
add_node n t =
    if n.fractional
    then record t {
      nodes = t.nodes + 1;
      fractional_total = t.fractional_total + n.gpu_total;
      fractional_free = t.fractional_free + n.gpu_free;
      vram_total = t.vram_total + n.vram_total;
      vram_free = t.vram_free + n.vram_free;
      cores_total = t.cores_total + n.cores_total;
      cores_free = t.cores_free + n.cores_free;
      slots_total = t.slots_total + n.slots_total;
      slots_free = t.slots_free + n.slots_free;
    }
    else record t {
      nodes = t.nodes + 1;
      total = t.total + n.gpu_total;
      used_by_type = t.used_by_type + (n.gpu_total - n.gpu_free);
    }

-- byType, in which the entry of a new type is created.
add_to_type : NodeAvail → List TypeAvail → List TypeAvail
unfolding add_node
add_to_type n [] = add_node n (no_gpus n.gpu_type) ∷ []
add_to_type n (t ∷ ts) =
    if str_eq t.gpu_type n.gpu_type then add_node n t ∷ ts else t ∷ add_to_type n ts

-- ByNode: nodes without a GPU are left out.
unfoldable pub by_node : Tables → List LiveNode → List NodeAvail
unfolding node_avail
by_node db [] = []
by_node db (n ∷ ns) =
    let rest = by_node db ns in
    let cap = atoi_safe n.gpu_capacity in if cap == 0 then rest else node_avail db n cap ∷ rest

pub by_type_from : List NodeAvail → List TypeAvail → List TypeAvail
unfolding add_to_type
by_type_from [] ts = ts
by_type_from (n ∷ ns) ts = by_type_from ns (add_to_type n ts)

pub record Availability : Type 0 where
  pub by_type : List TypeAvail
  pub by_node : List NodeAvail

-- Service.Availability; `none` where the nodes cannot be listed.
unfoldable pub availability : Tables → Option (List LiveNode) → Availability
unfolding by_node by_type_from
availability db none = record { by_type = []; by_node = [] }
availability db (some ns) = record {
  by_type = by_type_from (by_node db ns) [];
  by_node = by_node db ns;
}

-- t.Free
abbrev pub free_of : TypeAvail → ℕ
free_of t = t.total - t.used_by_type
