-- ===== src/Resource/ShareMode/Affinity.antt =====
-- The check of a node and the affinity of a pod.
use giosk.Prelude.{Option, none, some, [], ◌∷◌, String, ◌≡◌, refl, arith}
use giosk.Resource.Counter.{GpuMode, exclusive, shared, cpu, timeslice, other}
use giosk.Resource.ShareMode.{Scheduler, share_mode_reqs, share_mode_allows, meets, label_value}

-- On every node, labelled or not, ShareModeAllows gives the answer that Kubernetes gives to the affinity
-- of the pod, whatever the mode.
pub share_mode_allows-meets :
    (k : Scheduler) (mode : GpuMode) (label : Option String)
    → meets k (share_mode_reqs mode) label ≡ share_mode_allows mode (label_value label)
unfolding share_mode_reqs share_mode_allows
share_mode_allows-meets k timeslice none = rw (k.in_missing ("timeslicing" ∷ [])) refl
share_mode_allows-meets k timeslice (some v) =
    rw (k.in_present ("timeslicing" ∷ []) v) (ground arith)
share_mode_allows-meets k exclusive none = rw (k.not_in_missing ("timeslicing" ∷ "hami" ∷ [])) refl
share_mode_allows-meets k exclusive (some v) =
    rw (k.not_in_present ("timeslicing" ∷ "hami" ∷ []) v) (ground arith)
share_mode_allows-meets k shared none = rw (k.in_missing ("hami" ∷ [])) refl
share_mode_allows-meets k shared (some v) = rw (k.in_present ("hami" ∷ []) v) (ground arith)
share_mode_allows-meets k cpu label = refl
share_mode_allows-meets k other label = refl
