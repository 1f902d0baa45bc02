-- ===== src/Policy/Tests.antt =====
-- Runs of the limits on a user 1 of the group 7 of the organisation 3.
use giosk.Prelude.{ℕ, ◌≡◌, refl, Option, none, some, ℤ, pos, ◌==◌, if◌then◌else◌, true}
use giosk.Authz.Scope.{Scope}
use giosk.Authz.Scope
use giosk.Policy.Resolver.{Limits, Resolved, Resolver, global, resolve, resolve_group}
use giosk.Policy.Resolver.Nearest.{Key, value_in, nearest, user_layers, resolve-nearest}
use giosk.Policy.Admin.{
  Level, exceeds_parent, saved, set_limits, set_scoped, next_global, set_global,
}
use giosk.Policy.Admin.Access.{home_of, above, capping, Answers, set_scoped-Answers}
use giosk.Policy.Admin.Caps.{zero_gpu, set_scoped-zero}

abbrev gpus : ℤ → Limits
gpus n = record {
  max_gpu = some n;
  max_vram_gb = none;
  max_volume_gib = none;
  max_concurrent_sessions = none;
  max_stopped_sessions = none;
  max_ephemeral_gib = none;
}

abbrev defaults : Resolved
defaults = record {
  max_gpu = pos 8;
  max_vram_gb = pos 80;
  max_volume_gib = pos 100;
  max_concurrent_sessions = pos 4;
  max_stopped_sessions = pos 2;
  max_ephemeral_gib = pos 20;
}

abbrev at_7 : ℕ → Option ℕ
at_7 g = if g == 7 then some 3 else none

abbrev resolver : Resolver
resolver = record {
  repo = record {
    user_limits = λ u. if u == 1 then some (gpus (pos 1)) else none;
    group_limits = λ g. if g == 7 then some (gpus (pos 2)) else none;
    org_limits = λ o. if o == 3 then some (gpus (pos 4)) else none;
  };
  hier = record { group_of_user = λ u. some 7; org_of_user = λ u. some 3; org_of_group = at_7 };
  global_fn = some defaults;
}

abbrev scope_7 : Scope
scope_7 = record { level = Scope.Level.group; org_id = 3; group_id = 7 }

resolve-nearest_example :
    value_in Key.gpu (resolve resolver 1)
    ≡ nearest Key.gpu (user_layers resolver 1) (value_in Key.gpu (global resolver))
resolve-nearest_example = resolve-nearest Key.gpu resolver 1

set_scoped-Answers_example :
    Answers scope_7
      (home_of resolver at_7 Level.user 1)
      (above resolver (capping at_7 scope_7 1) Level.user 1)
      (gpus (pos 3))
      (set_scoped resolver at_7 scope_7 Level.user 1 (gpus (pos 3)))
set_scoped-Answers_example = set_scoped-Answers resolver at_7 scope_7 Level.user 1 (gpus (pos 3))

fits : exceeds_parent (gpus (pos 3)) defaults ≡ none
unfolding exceeds_parent
fits = refl

abbrev raised : Resolved
raised = record defaults { max_gpu = pos 16 }

stored : set_global true defaults (gpus (pos 16)) ≡ (saved, some raised)
unfolding set_global next_global
stored = refl

set_scoped-zero_example :
    (set_scoped resolver at_7 scope_7 Level.group 7 zero_gpu ≡ saved)
    × ((resolve_group (set_limits resolver Level.group 7 zero_gpu) 3 7).max_gpu ≡ pos 0)
set_scoped-zero_example = set_scoped-zero resolver at_7 scope_7 refl
