-- ===== src/Session/Billing/Storage.antt =====
-- The storage charge of a stopped session as a function of the time stopped.
use giosk.Prelude.{
  ℕ, ◌*◌, ◌/◌, ◌<◌, ◌≤◌, ◌≡◌, refl, ◌⊎◌, inl, inr, true, ◌||◌, pos, ◌≤ℤ◌, arith, ◌==◌, Bool-cases,
}
use native.Mathlib.Nat.{mul-le-mul_left}
use giosk.Session.Billing.{int64, home_size_gib, seconds_per_month, storage_due_of}

-- A product that fits is read as itself.
int64-small : (n : ℕ) → n < 9223372036854775808 → int64 n ≡ pos n
int64-small n h = ground (arith, h)

exact :
    (price seconds : ℕ)
    → home_size_gib * price * seconds < 9223372036854775808
    → storage_due_of seconds (pos price) ≡ pos (home_size_gib * price * seconds / seconds_per_month)
unfolding storage_due_of
exact price seconds small = elim (Bool-cases (seconds == 0 || price == 0)) [
  | inl nothing ↦ rw nothing (vanishes nothing)
  | inr something ↦ rw (something, int64-small (home_size_gib * price * seconds) small) refl
]
  where
    either : (seconds == 0 || price == 0) ≡ true → (seconds ≡ 0) ⊎ (price ≡ 0)
    either h = ground (arith, h)

    vanishes :
        (seconds == 0 || price == 0) ≡ true
        → pos 0 ≡ pos (home_size_gib * price * seconds / seconds_per_month)
    vanishes h = elim (either h) [ inl e ↦ rw e (ground arith) | inr e ↦ rw e (ground arith) ]

-- Where the product of the GiB, the price and the seconds fits an int64, the storage charge does not
-- fall as the time stopped grows, and is the product divided by the seconds of a month, rounded down.
pub storage_due_of-monotone :
    (price s t : ℕ)
    → s ≤ t
    → home_size_gib * price * t < 9223372036854775808
    → (storage_due_of s (pos price) ≤ℤ storage_due_of t (pos price))
      × (storage_due_of t (pos price) ≡ pos (home_size_gib * price * t / seconds_per_month))
storage_due_of-monotone price s t le small =
    let grows : home_size_gib * price * s ≤ home_size_gib * price * t =
      mul-le-mul_left (home_size_gib * price) le in
    let at_s = exact price s (omega (arith, grows, small)) in
    let at_t = exact price t small in
    (rw (at_s, at_t) (divided (home_size_gib * price * s) (home_size_gib * price * t) grows), at_t)
  where
    divided : (m n : ℕ) → m ≤ n → pos (m / seconds_per_month) ≤ℤ pos (n / seconds_per_month)
    divided m n h = omega (arith, h)
