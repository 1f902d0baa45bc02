-- ===== src/Authz/Scope.antt =====
-- The scope of a console request: parseScopeSel, matchScope, RequireManager, RequirePlatform,
-- RequireOrgInScope and RequireGroupInScope.
pub mod Safety
use giosk.Prelude.{
  ℕ, ◌+◌, ◌<◌, ◌≡◌, refl, ◌≢◌, ◌⊎◌, inl, inr, ◌↔◌, Bool, true, false, ◌&&◌, ◌||◌, Option, none,
  some, List, [], ◌∷◌, arith, leb, ltb, ◌==◌, if◌then◌else◌, ℤ, pos, negsuc, leb_ℤ, Option-cases,
  Bool-cases,
}
use giosk.Prelude.Text.{codes, bytes_eq, bytes_eq-eq, cut_at, parse_int}

-- `unset` is the zero value "".
pub data Level : Type 0 where
  platform org group unset : Level

pub record Scope : Type 0 where
  pub level : Level
  pub org_id : ℕ
  pub group_id : ℕ

abbrev pub no_scope : Scope
no_scope = record { level = Level.unset; org_id = 0; group_id = 0 }

abbrev pub level_name : Level → List ℕ
level_name Level.platform = codes "platform"
level_name Level.org = codes "org"
level_name Level.group = codes "group"
level_name Level.unset = []

abbrev pub is_platform : Level → Bool
is_platform Level.platform = true
is_platform _ = false

abbrev pub is_org : Level → Bool
is_org Level.org = true
is_org _ = false

abbrev pub is_group : Level → Bool
is_group Level.group = true
is_group _ = false

-- Scope.EffectiveIDs, as (orgID, groupID).
unfoldable pub effective_ids : Scope → ℕ × ℕ
effective_ids s = elim s.level [
  | Level.org ↦ (s.org_id, 0)
  | Level.group ↦ (0, s.group_id)
  | _ ↦ (0, 0)
]

-- The authenticated caller: auth.CurrentUser, with `admin` for Role == RoleAdmin.
pub record User : Type 0 where
  pub id : ℕ
  pub admin : Bool

pub data Reply : Type 0 where
  unauthorized forbidden bad_request next : Reply

abbrev same_id : ℕ → ℤ → Bool
same_id n (pos m) = n == m
same_id n (negsuc _) = false

scope_of_sel : List ℕ → ℤ → Option Scope
scope_of_sel level (negsuc _) = none
scope_of_sel level (pos id) =
    if id == 0
    then none
    else if bytes_eq level (codes "org")
    then some (record { level = Level.org; org_id = id; group_id = 0 })
    else if bytes_eq level (codes "group")
    then some (record { level = Level.group; org_id = 0; group_id = id })
    else none

abbrev is_empty : List ℕ → Bool
is_empty [] = true
is_empty (_ ∷ _) = false

-- `i <= 0` of the source: no colon, or nothing before it.
split_sel : List ℕ → Option (List ℕ × ℤ)
split_sel sel = elim (cut_at b':' sel) [
  | none ↦ none
  | some p ↦
      if is_empty p.0 then none else elim (parse_int p.1) [ none ↦ none | some id ↦ some (p.0, id) ]
]

pub parse_scope_sel : List ℕ → Option Scope
unfolding split_sel scope_of_sel
parse_scope_sel sel = elim (split_sel sel) [ none ↦ none | some p ↦ scope_of_sel p.0 p.1 ]

matches : List ℕ → ℤ → Scope → Bool
matches level id s =
    bytes_eq (level_name s.level) level
    && ((bytes_eq level (codes "org") && same_id s.org_id id)
        || (bytes_eq level (codes "group") && same_id s.group_id id))

find_scope : List ℕ → ℤ → List Scope → Option Scope
find_scope level id [] = none
find_scope level id (s ∷ ss) = if matches level id s then some s else find_scope level id ss

pub match_scope : List Scope → List ℕ → Option Scope
unfolding split_sel find_scope
match_scope scopes sel = elim (split_sel sel) [ none ↦ none | some p ↦ find_scope p.0 p.1 scopes ]

-- The parent organisation that the administrator's choice of a group is completed with.
fill_org : (ℕ → Option ℕ) → Scope → Scope
fill_org org_of_group s =
    if is_group s.level && s.org_id == 0
    then elim (org_of_group s.group_id) [ none ↦ s | some o ↦ record s { org_id = o } ]
    else s

abbrev platform_scope : Scope
platform_scope = record { level = Level.platform; org_id = 0; group_id = 0 }

-- What an administrator's X-Console-Scope header chooses ("" without one).
admin_scope : (ℕ → Option ℕ) → List ℕ → Scope
unfolding fill_org
admin_scope org_of_group sel =
    if is_empty sel || bytes_eq sel (codes "platform")
    then platform_scope
    else elim (parse_scope_sel sel) [ none ↦ platform_scope | some s ↦ fill_org org_of_group s ]

abbrev chosen_or : Scope → Option Scope → Scope
chosen_or first none = first
chosen_or first (some s) = s

manager_scope : List Scope → List ℕ → Option Scope
manager_scope [] sel = none
manager_scope (first ∷ rest) sel =
    some (if is_empty sel then first else chosen_or first (match_scope (first ∷ rest) sel))

-- RequireManager: the reply, and the scope put into the context. `scopes` is ManagerScopes.
pub require_manager : (ℕ → List Scope) → (ℕ → Option ℕ) → Option User → List ℕ → Reply × Scope
unfolding admin_scope manager_scope
require_manager scopes org_of_group none sel = (unauthorized, no_scope)
require_manager scopes org_of_group (some u) sel =
    if u.admin
    then (next, admin_scope org_of_group sel)
    else elim (manager_scope (scopes u.id) sel) [
      | none ↦ (forbidden, no_scope)
      | some s ↦ (next, s)
    ]

pub require_platform : Scope → Reply
require_platform s = if is_platform s.level then next else forbidden

-- `param` is the path parameter `id`.
pub require_org_in_scope : Scope → List ℕ → Reply
require_org_in_scope s param = if is_platform s.level then next else elim (parse_int param) [
  | none ↦ bad_request
  | some id ↦ if is_org s.level && same_id s.org_id id then next else forbidden
]

org_of_param : (ℕ → Option ℕ) → ℤ → Option ℕ
org_of_param org_of_group (pos id) = org_of_group id
org_of_param org_of_group (negsuc _) = none

pub require_group_in_scope : (ℕ → Option ℕ) → Scope → List ℕ → Reply
unfolding org_of_param
require_group_in_scope org_of_group s param =
    if is_platform s.level then next else elim (parse_int param) [
      | none ↦ bad_request
      | some id ↦
          if is_group s.level
          then (if same_id s.group_id id then next else forbidden)
          else elim (org_of_param org_of_group id) [
            | none ↦ forbidden
            | some o ↦ if o == s.org_id then next else forbidden
          ]
    ]
