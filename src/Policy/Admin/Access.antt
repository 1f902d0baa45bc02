-- ===== src/Policy/Admin/Access.antt =====
-- Who may set whose limits, and to what.
use giosk.Prelude.{
  Option-cases, inl, inr, ℕ, ◌≡◌, refl, subst, ◌⊎◌, Option, none, some, arith, ℤ, pos, ◌≤ℤ◌, ◌<ℤ◌,
}
use giosk.Authz.Scope.{Scope}
use giosk.Authz.Scope
use giosk.Policy.Resolver.{
  Limits, Resolver, Resolved, global, resolve_org, parent_of_user, id_or_zero, hier_of_user,
}
use giosk.Policy.Resolver.Nearest.{Key, set_in, value_in}
use giosk.Policy.Admin.{
  Level, user, group, org, Item, Reply, saved, out_of_scope, over_parent, not_supported, bad_value,
  scope_parent, exceeds_parent, set_scoped, gpu, vram, volume, sessions, stopped_sessions,
  ephemeral_disk,
}
use giosk.Policy.Admin.Caps.{exceeds_parent-within}

-- The organisation and, below one, the group that a target belongs to.
abbrev pub home_of : Resolver → (ℕ → Option ℕ) → Level → ℕ → ℕ × Option ℕ
home_of r og org id = (id, none)
home_of r og group id = (id_or_zero (og id), some id)
home_of r og user id = ((hier_of_user r id).0, some ((hier_of_user r id).1))

-- A scope covers what is below it: the platform everything, an organisation what belongs to it, a
-- group itself and its members.
abbrev pub Covers : Scope → ℕ × Option ℕ → Type 0
Covers s home =
    (s.level ≡ Scope.Level.platform)
    ⊎ ((s.level ≡ Scope.Level.org) × (home.0 ≡ s.org_id))
    ⊎ ((s.level ≡ Scope.Level.group) × (home.1 ≡ some s.group_id))

-- The limits above a target: those of the platform above an organisation, of an organisation above a
-- group, of the group, if there is one, above a user.
abbrev pub above : Resolver → ℕ → Level → ℕ → Resolved
above r o org id = global r
above r o group id = resolve_org r o
above r o user id = parent_of_user r id

-- The organisation whose limits cap a group: the caller's, who manages the group, or else the group's.
abbrev pub capping : (ℕ → Option ℕ) → Scope → ℕ → ℕ
capping og s id = elim s.level [ Scope.Level.group ↦ s.org_id | _ ↦ id_or_zero (og id) ]

-- Where the parent has a limit, what the form sets is not above it.
abbrev pub Below : Limits → Resolved → Type 0
Below b p = (k : Key) (v : ℤ) → set_in k b ≡ some v → pos 0 <ℤ value_in k p → v ≤ℤ value_in k p

abbrev pub key_of : Item → Key
key_of gpu = Key.gpu
key_of vram = Key.vram
key_of volume = Key.volume
key_of sessions = Key.concurrent
key_of stopped_sessions = Key.stopped
key_of ephemeral_disk = Key.ephemeral

-- An item of the form is above the parent's limit.
abbrev pub Exceeds : Limits → Resolved → Item → Type 0
Exceeds b p i =
    (v : ℤ) × ((set_in (key_of i) b ≡ some v)
      × ((pos 0 <ℤ value_in (key_of i) p) × (value_in (key_of i) p <ℤ v)))

-- What a reply says of the caller, the target and the form.
abbrev pub Answers : Scope → ℕ × Option ℕ → Resolved → Limits → Reply → Type 0
Answers s home p b out_of_scope = ¬ Covers s home
Answers s home p b saved = Covers s home × Below b p
Answers s home p b (over_parent i) = Covers s home × Exceeds b p i
Answers s home p b not_supported = ⊥
Answers s home p b bad_value = ⊥

module _ (r : Resolver) (og : ℕ → Option ℕ) (s : Scope) where
  covered :
      (l : Level) (id : ℕ) (p : Resolved)
      → scope_parent r og s l id ≡ some p
      → Covers s (home_of r og l id) × (p ≡ above r (capping og s id) l id)
  unfolding scope_parent
  covered user id p h = (ground arith, ground arith)
  covered group id p h = (ground arith, ground arith)
  covered org id p h = (ground arith, ground arith)

  uncovered :
      (l : Level) (id : ℕ) → scope_parent r og s l id ≡ none → ¬ Covers s (home_of r og l id)
  unfolding scope_parent
  uncovered user id h = ground arith
  uncovered group id h = ground arith
  uncovered org id h = ground arith

-- The item that is reported is above the parent's limit.
exceeds_parent-Exceeds :
    (b : Limits) (p : Resolved) (i : Item) → exceeds_parent b p ≡ some i → Exceeds b p i
unfolding exceeds_parent
exceeds_parent-Exceeds b p i h = elim (Option-cases (set_in (key_of i) b)) [
  | inl unset ↦ absurd i unset h
  | inr (v, e) ↦ (v, (e, over i v e h))
]
  where
    absurd : (i : Item) → set_in (key_of i) b ≡ none → exceeds_parent b p ≡ some i → Exceeds b p i
    absurd gpu e h = ground arith
    absurd vram e h = ground arith
    absurd volume e h = ground arith
    absurd sessions e h = ground arith
    absurd stopped_sessions e h = ground arith
    absurd ephemeral_disk e h = ground arith

    over :
        (i : Item) (v : ℤ)
        → set_in (key_of i) b ≡ some v
        → exceeds_parent b p ≡ some i
        → (pos 0 <ℤ value_in (key_of i) p) × (value_in (key_of i) p <ℤ v)
    over gpu v e h = ground arith
    over vram v e h = ground arith
    over volume v e h = ground arith
    over sessions v e h = ground arith
    over stopped_sessions v e h = ground arith
    over ephemeral_disk v e h = ground arith

-- The answer to a request to set limits: out of scope exactly where the caller's scope does not
-- cover the target, which a scope does where it is the platform, the organisation that the
-- target is or belongs to, or the group that it is or belongs to; saved only where it does and
-- no value of the form is above a limit that the level above the target has; and over the
-- parent's limit only where it does and the item that is named is above such a limit.
pub set_scoped-Answers :
    (r : Resolver) (og : ℕ → Option ℕ) (s : Scope) (l : Level) (id : ℕ) (b : Limits)
    → Answers s (home_of r og l id) (above r (capping og s id) l id) b (set_scoped r og s l id b)
unfolding set_scoped
set_scoped-Answers r og s l id b = judged (scope_parent r og s l id) refl
  where
    home : ℕ × Option ℕ
    home = home_of r og l id

    top : Resolved
    top = above r (capping og s id) l id

    filled :
        (p : Resolved)
        → Covers s home × (p ≡ top)
        → (o : Option Item) → exceeds_parent b p ≡ o
        → Answers s home top b (elim o as (λ _. Reply) [ none ↦ saved | some i ↦ over_parent i ])
    filled p (covers, same) none h = (
      covers,
      subst (Below b) same (λ k v set positive. exceeds_parent-within k b p v h set positive),
    )
    filled p (covers, same) (some i) h =
        (covers, subst (λ z. Exceeds b z i) same (exceeds_parent-Exceeds b p i h))

    judged :
        (o : Option Resolved)
        → scope_parent r og s l id ≡ o
        → Answers s home top b (elim o as (λ _. Reply) [
          | none ↦ out_of_scope
          | some p ↦ elim (exceeds_parent b p) as (λ _. Reply) [
            | none ↦ saved
            | some i ↦ over_parent i
          ]
        ])
    judged none h = uncovered r og s l id h
    judged (some p) h = filled p (covered r og s l id p h) (exceeds_parent b p) refl
