-- ===== src/Resource/Counter/Shares.antt =====
-- What a single row adds to the counts.
use giosk.Prelude.{
  ℕ, ◌+◌, ◌≤◌, ◌≡◌, refl, Bool, true, false, ◌&&◌, not, List, [], ◌∷◌, ◌++◌, String, str_eq, eq_iff,
  All, arith, if◌then◌else◌,
}
use giosk.Session.Limits.{Phase, running}
use giosk.Resource.Counter.{
  shared, cpu, Row, at_least_one, used_gpus, waiting, sum_where, on_node, is_held, is_shared,
  running_by_node, reserved_gpus, physical_node, is_over,
}

module _ (p : Row → Bool) (f : Row → ℕ) where
  abbrev pub share : Row → ℕ
  share r = if p r then f r else 0

  pub sum_where-append :
      (xs ys : List Row) → sum_where p f (xs ++ ys) ≡ sum_where p f xs + sum_where p f ys
  sum_where-append [] ys = omega arith
  sum_where-append (x ∷ xs) ys = omega (arith, sum_where-append xs ys)

  pub sum_where-change :
      (xs ys : List Row) (r r' : Row)
      → sum_where p f (xs ++ r' ∷ ys) + share r ≡ sum_where p f (xs ++ r ∷ ys) + share r'
  sum_where-change xs ys r r' =
      omega (arith, sum_where-append xs (r ∷ ys), sum_where-append xs (r' ∷ ys))

  pub sum_where-delete :
      (xs ys : List Row) (r : Row)
      → sum_where p f (xs ++ r ∷ ys) ≡ sum_where p f (xs ++ ys) + share r
  sum_where-delete xs ys r = omega (arith, sum_where-append xs (r ∷ ys), sum_where-append xs ys)

pub no_physical :
    (name : String) (rows : List Row)
    → All (λ (r : Row). r.ssh ≡ false) rows
    → physical_node rows name ≡ false
unfolding physical_node
no_physical name [] h = refl
no_physical name (r ∷ rows) (h, hs) = rw h (no_physical name rows hs)

-- The reservation that a row stands for, in a type.
abbrev pub held : String → Row → ℕ
held t r = share (λ r. is_held t r && not (is_shared r.mode)) (λ r. at_least_one r.gpu_count) r

pub nowhere-runs : (name : String) (r : Row) → r.node ≡ "" → share (on_node name) used_gpus r ≡ 0
nowhere-runs name r h = ground (arith, h, eq_iff r.node "")

pub held-exclusive :
    (t : String) (r : Row)
    → held t r ≤ (if str_eq r.gpu_type t then at_least_one r.gpu_count else 0)
held-exclusive t r = ground arith

pub held-most : (t : String) (r : Row) → held t r ≤ at_least_one r.gpu_count
held-most t r = ground arith

pub held-shared : (t : String) (r : Row) → r.mode ≡ shared → held t r ≡ 0
held-shared t r h = ground (arith, h)

pub held-cpu : (t : String) (r : Row) → r.mode ≡ cpu → held t r ≡ 0
held-cpu t r h = ground (arith, h)

-- The GPUs that a row uses on a node.
abbrev pub runs_on : String → Row → ℕ
runs_on name r = share (on_node name) used_gpus r

module _ (xs ys : List Row) (r r' : Row) where
  pub running-change :
      (name : String)
      → running_by_node (xs ++ r' ∷ ys) name + runs_on name r
        ≡ running_by_node (xs ++ r ∷ ys) name + runs_on name r'
  unfolding running_by_node
  running-change name = sum_where-change (on_node name) used_gpus xs ys r r'

  pub reserved-change :
      (t : String)
      → reserved_gpus (xs ++ r' ∷ ys) t + held t r ≡ reserved_gpus (xs ++ r ∷ ys) t + held t r'
  unfolding reserved_gpus
  reserved-change t =
      sum_where-change (λ r. is_held t r && not (is_shared r.mode)) (λ r. at_least_one r.gpu_count)
        xs ys r r'

pub start-runs :
    (name : String) (r : Row)
    → waiting r ≡ true
    → runs_on name (record r { phase = running }) ≤ runs_on name r
start-runs name r h = ground (arith, h)

pub start-held : (t : String) (r : Row) → held t (record r { phase = running }) ≤ held t r
start-held t r = ground arith

pub end-runs :
    (name : String) (r : Row) (p : Phase)
    → is_over p ≡ true
    → runs_on name (record r { phase = p }) ≤ runs_on name r
end-runs name r p h = ground (arith, h)

pub end-held :
    (t : String) (r : Row) (p : Phase)
    → is_over p ≡ true
    → held t (record r { phase = p }) ≤ held t r
end-held t r p h = ground (arith, h)
