-- ===== src/Policy/Resolver/Nearest.antt =====
-- The resolved value of each key is the one set nearest to the user.
use giosk.Prelude.{ℕ, ◌≡◌, refl, Option, none, some, List, [], ◌∷◌, ℤ, arith}
use giosk.Policy.Resolver.{
  append_layer, apply_layer, global_as_limits, apply_all, Limits, Resolved, Resolver, global,
  apply_limits, layer, resolve,
}

pub data Key : Type 0 where
  gpu vram volume concurrent stopped ephemeral : Key

abbrev pub set_in : Key → Limits → Option ℤ
set_in gpu l = l.max_gpu
set_in vram l = l.max_vram_gb
set_in volume l = l.max_volume_gib
set_in concurrent l = l.max_concurrent_sessions
set_in stopped l = l.max_stopped_sessions
set_in ephemeral l = l.max_ephemeral_gib

abbrev pub value_in : Key → Resolved → ℤ
value_in gpu r = r.max_gpu
value_in vram r = r.max_vram_gb
value_in volume r = r.max_volume_gib
value_in concurrent r = r.max_concurrent_sessions
value_in stopped r = r.max_stopped_sessions
value_in ephemeral r = r.max_ephemeral_gib

-- The first level of a list, nearest first, that sets the key; else the value given.
abbrev pub nearest : Key → List (Option Limits) → ℤ → ℤ
nearest k [] v = v
nearest k (none ∷ ls) v = nearest k ls v
nearest k (some l ∷ ls) v = elim (set_in k l) [ none ↦ nearest k ls v | some w ↦ w ]

abbrev pub user_layers : Resolver → ℕ → List (Option Limits)
user_layers r u =
    r.repo.user_limits u
    ∷ layer (r.hier.group_of_user u) r.repo.group_limits
    ∷ layer (r.hier.org_of_user u) r.repo.org_limits
    ∷ []

-- For every key the limit of a user is the first one set by the user, the user's group, the
-- group's organisation, and else the global one; a level whose look-up fails counts as unset.
pub resolve-nearest :
    (k : Key) (r : Resolver) (u : ℕ)
    → value_in k (resolve r u) ≡ nearest k (user_layers r u) (value_in k (global r))
unfolding resolve
resolve-nearest gpu r u = ground arith
resolve-nearest vram r u = ground arith
resolve-nearest volume r u = ground arith
resolve-nearest concurrent r u = ground arith
resolve-nearest stopped r u = ground arith
resolve-nearest ephemeral r u = ground arith

abbrev pub over_user : Option Limits → Resolved → Resolved
over_user none p = p
over_user (some l) p = apply_limits p l

layers_agree :
    (r : Resolver) (a b c : Option Limits)
    → apply_all
        (global r)
        (append_layer (append_layer (append_layer (global_as_limits r ∷ []) a) b) c)
      ≡ over_user c (apply_layer (apply_layer (global r) a) b)
unfolding apply_all global_as_limits
layers_agree r none none none = refl
layers_agree r none none (some c) = refl
layers_agree r none (some b) none = refl
layers_agree r none (some b) (some c) = refl
layers_agree r (some a) none none = refl
layers_agree r (some a) none (some c) = refl
layers_agree r (some a) (some b) none = refl
layers_agree r (some a) (some b) (some c) = refl
