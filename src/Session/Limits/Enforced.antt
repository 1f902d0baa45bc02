-- ===== src/Session/Limits/Enforced.antt =====
-- A session that is admitted leaves its user within every limit.
use giosk.Prelude.{
  ℕ, ◌≡◌, ◌⊎◌, Bool, true, Option, none, some, List, [], ◌∷◌, ◌++◌, ℤ, pos, ◌+ℤ◌, ◌≤ℤ◌,
}
use giosk.Policy.Resolver.{Resolved, Resolver}
use giosk.Session.Billing.{quotient, group_or_zero}
use giosk.Session.Limits.{
  provisioning, Row, GateError, Gate, count_active, allocated_home_gib, volumes_of,
}

-- `n` is within a limit, of which 0 is none.
abbrev pub Within : ℤ → ℤ → Type 0
Within limit n = (limit ≤ℤ pos 0) ⊎ (n ≤ℤ limit)

-- The wallet covers an hour of the session, where there is a charger and the session costs something.
abbrev pub Affordable : Option (ℕ → ℕ → ℤ) → ℕ → Row → Type 0
Affordable none u sess = Unit
Affordable (some balance) u sess =
    (sess.price_per_hour ≤ℤ pos 0)
    ⊎ (sess.price_per_hour ≤ℤ balance u (group_or_zero sess.group_id))

-- A container fits now, where there is an availability gate.
abbrev pub Fits : Option (Row → Bool) → Row → Type 0
Fits none sess = Unit
Fits (some can_place) sess = (sess.ssh ≡ true) ⊎ (can_place sess ≡ true)

-- The user is within the limits once the rows are `rows`, with the session that was admitted.
abbrev pub Enforced : Gate → Resolved → ℕ → Row → List Row → Type 0
Enforced g lim u sess rows =
    Within lim.max_concurrent_sessions (pos (count_active u rows))
    × ((sess.ssh ≡ true)
        ⊎ Within lim.max_volume_gib
            (allocated_home_gib u g.session_home_gib rows +ℤ volumes_of g u))
    × Within lim.max_gpu sess.gpu_count
    × Within lim.max_vram_gb (quotient sess.vram_mb 1024)

module _ (g : Gate) (rows : List Row) (u : ℕ) (sess : Row) (own : sess.user_id ≡ u)
    (fresh : sess.phase ≡ provisioning) (counted : g.counts_active ≡ true)
    (summed_up : g.sums_homes ≡ true) where
  -- What a request to create comes to under the limits `lim`.
  abbrev pub Admitted : Resolved → Option GateError × List Row → Type 0
  Admitted lim (none, rows') =
      (rows' ≡ rows ++ sess ∷ [])
      × (Enforced g lim u sess rows' × Affordable g.balance u sess × Fits g.can_place sess)
  Admitted lim (some e, rows') = rows' ≡ rows
