-- ===== src/Authz/Scope/Safety.antt =====
-- What the guards let through.
use giosk.Prelude.{
  ℕ, ◌≡◌, refl, ◌≢◌, ◌⊎◌, inl, inr, false, Option, none, some, List, [], ◌∷◌, arith, ℤ, pos,
  Option-cases, Elem,
}
use giosk.Prelude.Text.{parse_int}
use giosk.Authz.Scope.{
  Level, Scope, User, forbidden, next, find_scope, split_sel, match_scope, manager_scope,
  require_manager, require_group_in_scope,
}

find_scope-Elem :
    (level : List ℕ) (id : ℤ) (ss : List Scope) {s : Scope}
    → find_scope level id ss ≡ some s
    → Elem s ss
unfolding find_scope
find_scope-Elem level id [] h = cc
find_scope-Elem level id (x ∷ ss) {s} h = ground (arith, find_scope-Elem level id ss {s = s})

match_scope-Elem :
    (ss : List Scope) (sel : List ℕ) {s : Scope} → match_scope ss sel ≡ some s → Elem s ss
unfolding match_scope
match_scope-Elem ss sel h = elim (Option-cases (split_sel sel)) [
  | inl e ↦ ground arith
  | inr (p, e) ↦ find_scope-Elem p.0 p.1 ss (ground arith)
]

manager_scope-Elem :
    (ss : List Scope) (sel : List ℕ) {s : Scope} → manager_scope ss sel ≡ some s → Elem s ss
unfolding manager_scope
manager_scope-Elem [] sel h = cc
manager_scope-Elem (x ∷ ss) sel h = elim (Option-cases (match_scope (x ∷ ss) sel)) [
  | inl e ↦ ground arith
  | inr (t, e) ↦ ground (arith, match_scope-Elem (x ∷ ss) sel e)
]

manager_scope-none : (ss : List Scope) (sel : List ℕ) → manager_scope ss sel ≡ none → ss ≡ []
unfolding manager_scope
manager_scope-none [] sel h = refl
manager_scope-none (x ∷ ss) sel h = cc

-- Whatever the X-Console-Scope header says, a caller who is not a platform administrator is either
-- refused, which happens exactly when the caller manages nothing, or acts in a scope that is held.
pub require_manager-held :
    (scopes : ℕ → List Scope) (org_of_group : ℕ → Option ℕ) (u : User) (sel : List ℕ)
    → u.admin ≡ false
    → let (r, s) = require_manager scopes org_of_group (some u) sel in
      ((scopes u.id ≡ []) × (r ≡ forbidden)) ⊎ ((r ≡ next) × Elem s (scopes u.id))
unfolding require_manager
require_manager-held scopes og u sel h = elim (Option-cases (manager_scope (scopes u.id) sel)) [
  | inl e ↦ inl (manager_scope-none (scopes u.id) sel e, ground arith)
  | inr (t, e) ↦ ground (arith, manager_scope-Elem (scopes u.id) sel e)
]

-- `id` is the number that the path parameter holds.
abbrev pub InScope : (ℕ → Option ℕ) → Scope → ℕ → Type 0
InScope org_of_group s id =
    (s.level ≡ Level.platform)
    ⊎ ((s.level ≡ Level.group) × (s.group_id ≡ id))
    ⊎ ((s.level ≢ Level.platform) × (s.level ≢ Level.group) × (org_of_group id ≡ some s.org_id))

-- The guard of the group routes passes exactly the platform scope, the group itself, and a scope
-- that names the parent organisation of the group; all else that names a group is forbidden.
pub require_group_in_scope-InScope :
    (org_of_group : ℕ → Option ℕ) (s : Scope) (param : List ℕ) (id : ℕ)
    → parse_int param ≡ some (pos id)
    → ((require_group_in_scope org_of_group s param ≡ next) × InScope org_of_group s id)
      ⊎ ((require_group_in_scope org_of_group s param ≡ forbidden) × ¬ InScope org_of_group s id)
unfolding require_group_in_scope
require_group_in_scope-InScope og s param id h = ground arith
