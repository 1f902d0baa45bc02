-- ===== src/Resource/Placement/Booking.antt =====
-- The life of sessions behind the gate of CanPlace, and what it keeps.
use giosk.Prelude.{
  ℕ, ◌+◌, ◌≤◌, ◌≡◌, Bool, true, false, ◌&&◌, not, some, List, [], ◌∷◌, ◌++◌, String, str_eq,
  any_where, All, if◌then◌else◌, ◌==◌,
}
use giosk.Session.Limits.{Phase, provisioning, running}
use giosk.Resource.Counter.{
  GpuMode, exclusive, shared, cpu, timeslice, other, Row, NodeRow, at_least_one, waiting,
  running_by_node, reserved_gpus, hami_node, is_over,
}
use giosk.Resource.Availability.{Tables, LiveNode, atoi_safe}
use giosk.Resource.Placement.{PlaceReq, can_place}

-- The request that a new session makes.
abbrev pub request : Row → PlaceReq
request r = record {
  mode = r.mode;
  gpu_type = r.gpu_type;
  gpu_count = r.gpu_count;
  vram_mb = r.vram_mb;
  core_percent = r.core_percent;
  node = "";
}

-- The modes whose GPUs the gate counts.
abbrev pub is_counted : GpuMode → Bool
is_counted exclusive = true
is_counted shared = true
is_counted cpu = true
is_counted timeslice = false
is_counted other = false

-- A container session that has just been created.
pub record IsNew (r : Row) : Type 0 where
  pub waits : r.phase ≡ provisioning
  pub nowhere : r.node ≡ ""
  pub container : r.ssh ≡ false
  pub counted : is_counted r.mode ≡ true

-- What the counters read where no query fails.
abbrev pub tables : List NodeRow → List Row → Tables
tables nodes rows = record {
  running = rows;
  leased = rows;
  sharing = rows;
  reserved = rows;
  hami = nodes;
  splits = nodes;
}

-- A node of the type that HAMi does not share out.
abbrev pub gives : List NodeRow → String → LiveNode → Bool
gives nodes t n = str_eq n.gpu_type t && not (hami_node nodes n.name)

abbrev pub sum_live : (LiveNode → Bool) → (LiveNode → ℕ) → List LiveNode → ℕ
sum_live p f [] = 0
sum_live p f (n ∷ ns) = (if p n then f n else 0) + sum_live p f ns

module _ (nodes : List NodeRow) (live : List LiveNode) where
  -- Where the scheduler may put a session: whole GPUs on nodes of the type that have them free, a
  -- share on a HAMi node, no GPU anywhere.
  abbrev pub Goes : List Row → Row → String → Type 0
  Goes rows r m = elim r.mode as (λ _. Type 0) [
    | exclusive ↦
        All
          (λ (n : LiveNode).
            str_eq n.name m ≡ true
            → (str_eq n.gpu_type r.gpu_type ≡ true)
              × (running_by_node rows m + at_least_one r.gpu_count ≤ atoi_safe n.gpu_capacity))
          live
    | shared ↦ hami_node nodes m ≡ true
    | cpu ↦ Unit
    | timeslice ↦ ⊥
    | other ↦ ⊥
  ]

  -- What can happen to a session among `rows`.
  pub data Change (rows : List Row) (r : Row) : Row → Type 0 where
    scheduled :
        (m : String)
        → waiting r ≡ true
        → r.node ≡ ""
        → str_eq m "" ≡ false
        → Goes rows r m
        → Change rows r (record r { node = m })
    started : waiting r ≡ true → Change rows r (record r { phase = running })
    ended : (p : Phase) → is_over p ≡ true → Change rows r (record r { phase = p })

  pub data Step : List Row → List Row → Type 0 where
    created :
        (rows : List Row) (r : Row)
        → IsNew r
        → can_place (tables nodes rows) (some live) (request r) ≡ true
        → Step rows (rows ++ r ∷ [])
    change :
        (xs ys : List Row) (r r' : Row)
        → Change (xs ++ r ∷ ys) r r'
        → Step (xs ++ r ∷ ys) (xs ++ r' ∷ ys)
    deleted : (xs ys : List Row) (r : Row) → Step (xs ++ r ∷ ys) (xs ++ ys)

  pub data Reach : List Row → Type 0 where
    here : Reach []
    next : {rows rows' : List Row} → Reach rows → Step rows rows' → Reach rows'

  -- The GPUs of the type that sessions use on its nodes that HAMi does not share out or have reserved, and those that there are.
  abbrev pub needed : String → List Row → ℕ
  needed t rows =
      sum_live (gives nodes t) (λ n. running_by_node rows n.name) live + reserved_gpus rows t

  abbrev pub capacity : String → ℕ
  capacity t = sum_live (gives nodes t) (λ n. atoi_safe n.gpu_capacity) live

-- Every node has a name of its own.
abbrev pub Distinct : List LiveNode → Type 0
Distinct [] = Unit
Distinct (n ∷ ns) = All (λ (m : LiveNode). str_eq m.name n.name ≡ false) ns × Distinct ns

abbrev pub has_gpus : List LiveNode → Bool
has_gpus = any_where (λ n. not (atoi_safe n.gpu_capacity == 0))
