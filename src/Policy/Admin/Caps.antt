-- ===== src/Policy/Admin/Caps.antt =====
-- Which values a manager and the platform may save.
use giosk.Prelude.{ℕ, ◌≡◌, Option, none, some, arith, ℤ, pos, ◌≤ℤ◌, ◌<ℤ◌, true}
use giosk.Authz.Scope.{Scope}
use giosk.Authz.Scope
use giosk.Policy.Resolver.{Limits, Resolved, Resolver, resolve_group}
use giosk.Policy.Resolver.Nearest.{Key, set_in, value_in}
use giosk.Policy.Admin.{
  group, set_limits, next_global, exceeds_parent, set_scoped, saved, set_global,
}

-- A form is accepted only if no value in it is above the parent's limit, where the parent has one.
pub exceeds_parent-within :
    (k : Key) (b : Limits) (p : Resolved) (v : ℤ)
    → exceeds_parent b p ≡ none
    → set_in k b ≡ some v
    → pos 0 <ℤ value_in k p
    → v ≤ℤ value_in k p
unfolding exceeds_parent
exceeds_parent-within Key.gpu b p v h e q = ground arith
exceeds_parent-within Key.vram b p v h e q = ground arith
exceeds_parent-within Key.volume b p v h e q = ground arith
exceeds_parent-within Key.concurrent b p v h e q = ground arith
exceeds_parent-within Key.stopped b p v h e q = ground arith
exceeds_parent-within Key.ephemeral b p v h e q = ground arith

-- The tests of `set_global` on the limits that it would store.
abbrev pub IsPositive : Resolved → Type 0
IsPositive n =
    (pos 0 <ℤ n.max_gpu)
    × (pos 0 <ℤ n.max_vram_gb)
    × (pos 0 <ℤ n.max_volume_gib)
    × (pos 0 <ℤ n.max_concurrent_sessions)
    × (pos 0 ≤ℤ n.max_stopped_sessions)
    × (pos 0 ≤ℤ n.max_ephemeral_gib)

set_global-next :
    (cur : Resolved) (b : Limits) (n : Resolved)
    → set_global true cur b ≡ (saved, some n)
    → IsPositive n × (n ≡ next_global b cur)
unfolding set_global
set_global-next cur b n h = ground arith

-- A value of the form, or else the current one.
abbrev pub chosen : Option ℤ → ℤ → ℤ
chosen none cur = cur
chosen (some v) cur = v

next_global-chosen :
    (k : Key) (cur : Resolved) (b : Limits)
    → value_in k (next_global b cur) ≡ chosen (set_in k b) (value_in k cur)
unfolding next_global
next_global-chosen Key.gpu cur b = ground arith
next_global-chosen Key.vram cur b = ground arith
next_global-chosen Key.volume cur b = ground arith
next_global-chosen Key.concurrent cur b = ground arith
next_global-chosen Key.stopped cur b = ground arith
next_global-chosen Key.ephemeral cur b = ground arith

-- The global limits that a save stores leave no GPU, memory, volume or session limit open, and
-- hold no negative number; each is the value of the form, or the current one where the form has none.
pub set_global-IsPositive :
    (cur : Resolved) (b : Limits) (n : Resolved)
    → set_global true cur b ≡ (saved, some n)
    → IsPositive n × ((k : Key) → value_in k n ≡ chosen (set_in k b) (value_in k cur))
set_global-IsPositive cur b n h =
    let (positive, e) = set_global-next cur b n h in
    (positive, λ k. rw e (next_global-chosen k cur b))

-- The form of a manager who sets the GPU limit to 0 and leaves out all else.
abbrev pub zero_gpu : Limits
zero_gpu = record {
  max_gpu = some (pos 0);
  max_vram_gb = none;
  max_volume_gib = none;
  max_concurrent_sessions = none;
  max_stopped_sessions = none;
  max_ephemeral_gib = none;
}

-- A group manager can lift the GPU limit of the own group: whatever limit the organisation has,
-- the form with 0 is saved, and 0 then resolves for the group, which is read as without limit.
pub set_scoped-zero :
    (r : Resolver) (og : ℕ → Option ℕ) (s : Scope)
    → s.level ≡ Scope.Level.group
    → (set_scoped r og s group s.group_id zero_gpu ≡ saved)
      × ((resolve_group (set_limits r group s.group_id zero_gpu) s.org_id s.group_id).max_gpu
          ≡ pos 0)
unfolding set_scoped set_limits resolve_group
set_scoped-zero r og s h = (ground arith, ground arith)
