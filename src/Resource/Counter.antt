-- ===== src/Resource/Counter.antt =====
-- backend/internal/resource/availability.go: what the sessions of the database occupy. A map that a query
-- fills is a function here, with what Go reads for a missing key.
pub mod Shares
use giosk.Prelude.{
  ℕ, ◌+◌, Bool, true, false, ◌&&◌, ◌||◌, not, List, [], ◌∷◌, String, str_eq, ℤ, pos, pos_part, ◌+ℤ◌,
  leb_ℤ, any_where, if◌then◌else◌,
}
use giosk.Session.Limits.{Phase, provisioning, running, stopped, terminated}

-- gpu_mode; `other` is any other text.
pub data GpuMode : Type 0 where
  exclusive shared cpu timeslice other : GpuMode

-- A row of sessions.
pub record Row : Type 0 where
  pub node : String
  pub gpu_type : String
  pub mode : GpuMode
  pub gpu_count : ℤ
  pub vram_mb : ℤ
  pub core_percent : ℤ
  pub ssh : Bool
  pub phase : Phase

-- A row of nodes.
pub record NodeRow : Type 0 where
  pub name : String
  pub hami : Bool
  pub split_count : ℤ

pub record ShareUse : Type 0 where
  pub vram_mb : ℤ
  pub cores : ℤ
  pub count : ℕ

-- GREATEST(gpu_count, 1)
abbrev pub at_least_one : ℤ → ℕ
at_least_one n = if leb_ℤ n (pos 1) then 1 else pos_part n

-- usedGpuExpr, for one row.
abbrev pub used_gpus : Row → ℕ
used_gpus r = elim r.mode [
  | exclusive ↦ at_least_one r.gpu_count
  | cpu ↦ 0
  | shared ↦ 1
  | timeslice ↦ 1
  | other ↦ 1
]

-- admittedPhases
abbrev pub admitted : Row → Bool
admitted r = elim r.phase [
  | provisioning ↦ true
  | running ↦ true
  | stopped ↦ false
  | terminated ↦ false
]

abbrev pub waiting : Row → Bool
waiting r = elim r.phase [
  | provisioning ↦ true
  | running ↦ false
  | stopped ↦ false
  | terminated ↦ false
]

abbrev pub is_over : Phase → Bool
is_over provisioning = false
is_over running = false
is_over stopped = true
is_over terminated = true

abbrev pub is_shared : GpuMode → Bool
is_shared shared = true
is_shared exclusive = false
is_shared cpu = false
is_shared timeslice = false
is_shared other = false

abbrev pub is_cpu : GpuMode → Bool
is_cpu cpu = true
is_cpu exclusive = false
is_cpu shared = false
is_cpu timeslice = false
is_cpu other = false

-- SUM(f) … WHERE p
abbrev pub sum_where : (Row → Bool) → (Row → ℕ) → List Row → ℕ
sum_where p f [] = 0
sum_where p f (r ∷ rs) = (if p r then f r else 0) + sum_where p f rs

abbrev pub sum_where_ℤ : (Row → Bool) → (Row → ℤ) → List Row → ℤ
sum_where_ℤ p f [] = pos 0
sum_where_ℤ p f (r ∷ rs) = (if p r then f r else pos 0) +ℤ sum_where_ℤ p f rs

abbrev pub on_node : String → Row → Bool
on_node node r = admitted r && not (str_eq r.node "") && str_eq r.node node

-- RunningByNode
unfoldable pub running_by_node : List Row → String → ℕ
running_by_node rows node = sum_where (on_node node) used_gpus rows

-- The condition of Reserved, for a type.
abbrev pub is_held : String → Row → Bool
is_held gpu_type r =
    waiting r
    && str_eq r.node ""
    && not (is_cpu r.mode)
    && not (str_eq r.gpu_type "")
    && str_eq r.gpu_type gpu_type

-- Reserved().GpuByType
unfoldable pub reserved_gpus : List Row → String → ℕ
reserved_gpus rows gpu_type =
    sum_where (λ r. is_held gpu_type r && not (is_shared r.mode)) (λ r. at_least_one r.gpu_count)
      rows

abbrev sum_share : (Row → Bool) → List Row → ShareUse
sum_share p rows = record {
  vram_mb = sum_where_ℤ p (λ r. r.vram_mb) rows;
  cores = sum_where_ℤ p (λ r. r.core_percent) rows;
  count = sum_where p (λ r. 1) rows;
}

-- Reserved().SharedByType
unfoldable pub reserved_shared : List Row → String → ShareUse
reserved_shared rows gpu_type = sum_share (λ r. is_held gpu_type r && is_shared r.mode) rows

-- RunningPhysicalNodes
unfoldable pub physical_node : List Row → String → Bool
physical_node rows node = any_where (λ r. r.ssh && on_node node r) rows

-- HamiNodes
unfoldable pub hami_node : List NodeRow → String → Bool
hami_node nodes node = any_where (λ n. n.hami && str_eq n.name node) nodes

-- NodeSplitCount; the name of a node is unique.
unfoldable pub split_count_of : List NodeRow → String → ℤ
split_count_of [] node = pos 0
split_count_of (n ∷ ns) node =
    if n.hami && str_eq n.name node then n.split_count else split_count_of ns node

-- SharedUsageByNode
unfoldable pub shared_usage : List Row → String → ShareUse
shared_usage rows node = sum_share (λ r. on_node node r && is_shared r.mode) rows
