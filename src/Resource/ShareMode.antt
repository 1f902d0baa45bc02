-- ===== src/Resource/ShareMode.antt =====
-- backend/internal/k8s/mapper.go: which nodes suit a mode by their share-mode label (ShareModeAllows), and
-- the affinity that a pod carries for it (shareModeReqs). Kubernetes decides the affinity.
pub mod Affinity
use giosk.Prelude.{
  Bool, true, false, ◌&&◌, ◌||◌, not, Option, none, some, List, [], ◌∷◌, String, str_eq, ◌≡◌, refl,
  any_where,
}
use giosk.Resource.Counter.{GpuMode, exclusive, shared, cpu, timeslice, other}

pub data Operator : Type 0 where
  inside outside : Operator

-- A requirement on the value of the share-mode label.
pub record Requirement : Type 0 where
  pub operator : Operator
  pub values : List String

-- shareModeReqs
pub share_mode_reqs : GpuMode → List Requirement
share_mode_reqs timeslice = record { operator = inside; values = "timeslicing" ∷ [] } ∷ []
share_mode_reqs exclusive = record { operator = outside; values = "timeslicing" ∷ "hami" ∷ [] } ∷ []
share_mode_reqs shared = record { operator = inside; values = "hami" ∷ [] } ∷ []
share_mode_reqs cpu = []
share_mode_reqs other = []

-- ShareModeAllows, of the label's value; it is "" where there is no label.
pub share_mode_allows : GpuMode → String → Bool
share_mode_allows timeslice label = str_eq label "timeslicing"
share_mode_allows exclusive label = not (str_eq label "timeslicing") && not (str_eq label "hami")
share_mode_allows shared label = str_eq label "hami"
share_mode_allows cpu label = true
share_mode_allows other label = true

-- What Kubernetes documents of In and NotIn: a node without the label is in no list of values.
pub record Scheduler : Type 0 where
  pub satisfies : Requirement → Option String → Bool
  pub in_missing :
      (vs : List String) → satisfies (record { operator = inside; values = vs }) none ≡ false
  pub in_present :
      (vs : List String) (v : String)
      → satisfies (record { operator = inside; values = vs }) (some v) ≡ any_where (str_eq v) vs
  pub not_in_missing :
      (vs : List String) → satisfies (record { operator = outside; values = vs }) none ≡ true
  pub not_in_present :
      (vs : List String) (v : String)
      → satisfies (record { operator = outside; values = vs }) (some v)
        ≡ not (any_where (str_eq v) vs)

-- All requirements of a term must hold.
abbrev pub meets : Scheduler → List Requirement → Option String → Bool
meets k [] label = true
meets k (q ∷ qs) label = k.satisfies q label && meets k qs label

-- n.Labels[ShareModeLabel]
abbrev pub label_value : Option String → String
label_value none = ""
label_value (some v) = v
