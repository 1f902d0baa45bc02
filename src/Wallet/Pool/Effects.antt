-- ===== src/Wallet/Pool/Effects.antt =====
-- What a draw on an organisation's pool does.
use giosk.Prelude.{
  ℕ, ◌≡◌, refl, ◌≢◌, ◌⊎◌, inl, inr, Bool, true, false, List, [], ◌∷◌, arith, ℤ, pos, ◌+ℤ◌, ◌-ℤ◌,
  ◌≤ℤ◌, ◌<ℤ◌, leb_ℤ, Bool-cases, ap, ◌∙◌, Option, some, if◌then◌else◌, int_laws,
}
use giosk.Wallet.Db.{Db, Result, ok, err, db_error, Organization, Membership, Group}
use giosk.Wallet.Db.Faults.{at, done, attempt_elim, attempt-clear}
use giosk.Wallet.Pool.{
  pool_of, add_pool_rows, covers_pool, draw_rows, draw_pool, draw_for, draw_for_user, org_of_user,
  group_of_user,
}

abbrev pub pool : Db → ℕ → ℤ
pool d o = pool_of o d.organizations

pool_of-add_self :
    (o : ℕ) (a b : ℤ) (rs : List Organization)
    → covers_pool o b rs ≡ true
    → pool_of o (add_pool_rows o a rs) ≡ pool_of o rs +ℤ a
unfolding pool_of add_pool_rows covers_pool
pool_of-add_self o a b [] h = cc
pool_of-add_self o a b (r ∷ rs) h = ground (arith, pool_of-add_self o a b rs)

covers_pool-le :
    (o : ℕ) (a : ℤ) (rs : List Organization) → covers_pool o a rs ≡ true → a ≤ℤ pool_of o rs
unfolding pool_of covers_pool
covers_pool-le o a rs h = ground arith

pool_of-add_ne :
    (o p : ℕ) (a : ℤ) (rs : List Organization)
    → o ≢ p
    → pool_of p (add_pool_rows o a rs) ≡ pool_of p rs
unfolding pool_of add_pool_rows
pool_of-add_ne o p a [] ne = refl
pool_of-add_ne o p a (r ∷ rs) ne = ground (arith, pool_of-add_ne o p a rs)

abbrev pub PoolDrawn : ℕ → ℤ → Db → Result Bool × Db → Type 0
PoolDrawn o a d (ok true, e) =
    (a ≤ℤ pool d o)
    × (pool e o ≡ pool d o +ℤ (pos 0 -ℤ a))
    × ((p : ℕ) → (o ≡ p) ⊎ (pool e p ≡ pool d p))
    × (e.user_wallets ≡ d.user_wallets)
    × (e.group_wallets ≡ d.group_wallets)
PoolDrawn o a d (ok false, e) = e ≡ at d e.faults
PoolDrawn o a d (err x, e) = (x ≡ db_error) × (e ≡ at d e.faults)

draw_rows-PoolDrawn : (o : ℕ) (a : ℤ) (d : Db) → PoolDrawn o a d (done (draw_rows o a d))
unfolding draw_rows
draw_rows-PoolDrawn o a d = elim (Bool-cases (covers_pool o a d.organizations)) [
  | inl e ↦ rw e (
    covers_pool-le o a d.organizations e,
    pool_of-add_self o (pos 0 -ℤ a) a d.organizations e,
    λ p. elsewhere p,
    refl,
    refl,
  )
  | inr e ↦ rw e refl
]
  where
    same_org : (p : ℕ) → (o ≡ p) ⊎ (o ≢ p)
    same_org p = ground arith

    elsewhere :
        (p : ℕ)
        → (o ≡ p)
          ⊎ (pool_of p (add_pool_rows o (pos 0 -ℤ a) d.organizations) ≡ pool_of p d.organizations)
    elsewhere p = elim (same_org p) [
      | inl same ↦ inl same
      | inr ne ↦ inr (pool_of-add_ne o p (pos 0 -ℤ a) d.organizations ne)
    ]

-- DrawPool takes the amount from a pool that covers it, and else changes nothing.
pub draw_pool-PoolDrawn : (o : ℕ) (a : ℤ) (d : Db) → PoolDrawn o a d (draw_pool o a d)
unfolding draw_pool
draw_pool-PoolDrawn o a d =
    attempt_elim (PoolDrawn o a d) (draw_rows o a) d (λ fs. (refl, refl))
      λ fs. draw_rows-PoolDrawn o a (at d fs)

-- A draw for a user where no statement fails and the organisation's pool covers it.
pub draw_for_user-clear :
    (u o : ℕ) (a : ℤ) (d : Db)
    → d.faults ≡ []
    → org_of_user d u ≡ some o
    → covers_pool o a d.organizations ≡ true
    → draw_for_user u a d ≡ (
      ok true,
      record d { organizations = add_pool_rows o (pos 0 -ℤ a) d.organizations; faults = [] },
    )
unfolding draw_for_user draw_for draw_pool draw_rows
draw_for_user-clear u o a d clear org covers =
    ap (λ (m : Option ℕ). draw_for m a d) org
    ∙ attempt-clear (draw_rows o a) d clear
    ∙ ap
        (λ c. done (
          if c
          then (
            true,
            record d { organizations = add_pool_rows o (pos 0 -ℤ a) d.organizations; faults = [] },
          )
          else (false, at d [])))
        covers

twice_enough :
    (a c : ℤ)
    → pos 0 <ℤ a
    → leb_ℤ (a +ℤ a) c ≡ true
    → (leb_ℤ a c ≡ true) × (leb_ℤ a (c +ℤ (pos 0 -ℤ a)) ≡ true)
twice_enough a c positive h =
    (grind (int_laws, arith, h, positive), grind (int_laws, arith, h, positive))

-- A pool that covers an amount twice covers it once, and once more after the first draw.
pub covers_pool-again :
    (o : ℕ) (a : ℤ) (rs : List Organization)
    → pos 0 <ℤ a
    → covers_pool o (a +ℤ a) rs ≡ true
    → (covers_pool o a rs ≡ true) × (covers_pool o a (add_pool_rows o (pos 0 -ℤ a) rs) ≡ true)
unfolding covers_pool add_pool_rows
covers_pool-again o a [] positive h = ground (arith, h)
covers_pool-again o a (r ∷ rs) positive h =
    ground (arith, h, twice_enough a r.credit_pool positive, covers_pool-again o a rs positive)

-- What is read of the memberships and the groups alone.
pub group_of_user-same :
    (u : ℕ) (d e : Db) → d.memberships ≡ e.memberships → group_of_user d u ≡ group_of_user e u
unfolding group_of_user
group_of_user-same u d e h =
    ap (λ (ms : List Membership). group_of_user (record d { memberships = ms }) u) h

pub org_of_user-same :
    (u : ℕ) (d e : Db)
    → d.memberships ≡ e.memberships
    → d.groups ≡ e.groups
    → org_of_user d u ≡ org_of_user e u
unfolding org_of_user
org_of_user-same u d e h k =
    ap (λ (ms : List Membership). org_of_user (record d { memberships = ms }) u) h
    ∙ ap (λ (gs : List Group). org_of_user (record e { groups = gs }) u) k
