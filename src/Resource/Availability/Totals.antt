-- ===== src/Resource/Availability/Totals.antt =====
-- The view by type is the sum of the view by node.
use giosk.Prelude.{
  ℕ, ◌+◌, ◌-◌, ◌≤◌, ◌≡◌, refl, sym, ap, ◌∙◌, inl, inr, Bool, true, false, ◌&&◌, not, none, some,
  List, [], ◌∷◌, String, str_eq, eq_iff, first_where, All, arith, Bool-cases, if◌then◌else◌, ◌==◌,
}
use giosk.Resource.Availability.Within.{IsNonNegative, IsWithin, by_node-IsWithin}
use giosk.Resource.Availability.{
  Tables, LiveNode, NodeAvail, TypeAvail, no_gpus, atoi_safe, used_of, whole, node_avail, add_node,
  add_to_type, by_node, by_type_from, availability, free_of, is_fractional,
}

-- The entry of a type, or no GPUs.
abbrev pub entry_of : String → List TypeAvail → TypeAvail
entry_of t ts = elim (first_where (λ e. str_eq e.gpu_type t) ts) [ none ↦ no_gpus t | some e ↦ e ]

abbrev pub sum_nodes : (NodeAvail → Bool) → (NodeAvail → ℕ) → List NodeAvail → ℕ
sum_nodes p f [] = 0
sum_nodes p f (n ∷ ns) = (if p n then f n else 0) + sum_nodes p f ns

abbrev pub dedicated : String → NodeAvail → Bool
dedicated t n = str_eq n.gpu_type t && not n.fractional

abbrev pub fractional : String → NodeAvail → Bool
fractional t n = str_eq n.gpu_type t && n.fractional

-- The GPUs that are free do not exceed those that there are.
abbrev pub IsBounded : NodeAvail → Type 0
IsBounded n = n.gpu_free ≤ n.gpu_total

used_of-le : (db : Tables) (name : String) (cap : ℕ) → used_of db name cap ≤ cap
unfolding used_of
used_of-le db name cap = ground arith

node_avail-IsBounded : (db : Tables) (n : LiveNode) (cap : ℕ) → IsBounded (node_avail db n cap)
unfolding node_avail whole
node_avail-IsBounded db n cap = elim (Bool-cases (is_fractional db n.name)) [
  | inl yes_it_is ↦ rw yes_it_is (omega arith)
  | inr it_is_not ↦ rw it_is_not (omega arith)
]

pub node_avail-fields :
    (db : Tables) (n : LiveNode) (cap : ℕ)
    → ((node_avail db n cap).gpu_type ≡ n.gpu_type)
      × ((node_avail db n cap).fractional ≡ is_fractional db n.name)
      × ((node_avail db n cap).gpu_free ≡ cap - used_of db n.name cap)
unfolding node_avail whole
node_avail-fields db n cap = elim (Bool-cases (is_fractional db n.name)) [
  | inl yes_it_is ↦ rw yes_it_is (refl, refl, refl)
  | inr it_is_not ↦ rw it_is_not (refl, refl, refl)
]

by_node-IsBounded : (db : Tables) (ns : List LiveNode) → All IsBounded (by_node db ns)
unfolding by_node
by_node-IsBounded db [] = tt
by_node-IsBounded db (n ∷ ns) = elim (Bool-cases (atoi_safe n.gpu_capacity == 0)) [
  | inl without ↦ rw without (by_node-IsBounded db ns)
  | inr with_gpus ↦
      rw with_gpus (node_avail-IsBounded db n (atoi_safe n.gpu_capacity), by_node-IsBounded db ns)
]

add_node-type : (n : NodeAvail) (e : TypeAvail) → (add_node n e).gpu_type ≡ e.gpu_type
unfolding add_node
add_node-type n e = ground arith

same_text : (a b : String) → str_eq a b ≡ true → a ≡ b
same_text a b h = (eq_iff a b).0 h

eq_of_same : (a b c : String) → str_eq a b ≡ true → str_eq a c ≡ str_eq b c
eq_of_same a b c h = ap (λ z. str_eq z c) (same_text a b h)

eq_of_other : (a b c : String) → str_eq a b ≡ false → str_eq a c ≡ true → str_eq b c ≡ false
eq_of_other a b c h k = ground (arith, eq_iff a b, eq_iff a c, eq_iff b c, h, k)

-- An entry that is found first, or not.
entry_of-first :
    (t : String) (e : TypeAvail) (ts : List TypeAvail) (b : Bool)
    → str_eq e.gpu_type t ≡ b
    → entry_of t (e ∷ ts) ≡ (if b then e else entry_of t ts)
entry_of-first t e ts b h = opened b h
  where
    found : Bool → TypeAvail
    found c =
        elim (if c then some e else first_where (λ x. str_eq x.gpu_type t) ts) as (λ _. TypeAvail) [
          | none ↦ no_gpus t
          | some x ↦ x
        ]

    opened :
        (c : Bool)
        → str_eq e.gpu_type t ≡ c
        → entry_of t (e ∷ ts) ≡ (if c then e else entry_of t ts)
    opened true k = ap found k
    opened false k = ap found k

add_node-first :
    (t : String) (n : NodeAvail) (e : TypeAvail) (ts : List TypeAvail) (b : Bool)
    → str_eq e.gpu_type t ≡ b
    → entry_of t (add_node n e ∷ ts) ≡ (if b then add_node n e else entry_of t ts)
add_node-first t n e ts b h =
    entry_of-first t (add_node n e) ts b (ap (λ z. str_eq z t) (add_node-type n e) ∙ h)

entry_of-add :
    (t : String) (n : NodeAvail) (ts : List TypeAvail)
    → entry_of t (add_to_type n ts)
      ≡ (if str_eq n.gpu_type t then add_node n (entry_of t ts) else entry_of t ts)
unfolding add_to_type
entry_of-add t n [] = elim (Bool-cases (str_eq n.gpu_type t)) [
  | inl same ↦ rw same (
      add_node-first t n (no_gpus n.gpu_type) [] true same
      ∙ ap (λ z. add_node n (no_gpus z)) (same_text n.gpu_type t same))
  | inr other ↦ rw other (add_node-first t n (no_gpus n.gpu_type) [] false other)
]
entry_of-add t n (e ∷ ts) = elim (Bool-cases (str_eq e.gpu_type n.gpu_type)) [
  | inl mine ↦ elim (Bool-cases (str_eq e.gpu_type t)) [
    | inl same ↦
        rw (mine, sym (eq_of_same e.gpu_type n.gpu_type t mine) ∙ same)
          (add_node-first t n e ts true same
            ∙ ap (add_node n) (sym (entry_of-first t e ts true same)))
    | inr other ↦
        rw (mine, sym (eq_of_same e.gpu_type n.gpu_type t mine) ∙ other)
          (add_node-first t n e ts false other ∙ sym (entry_of-first t e ts false other))
  ]
  | inr theirs ↦ elim (Bool-cases (str_eq e.gpu_type t)) [
    | inl same ↦
        rw (theirs, eq_of_other e.gpu_type n.gpu_type t theirs same)
          (entry_of-first t e (add_to_type n ts) true same ∙ sym (entry_of-first t e ts true same))
    | inr other ↦ rw theirs (
        entry_of-first t e (add_to_type n ts) false other
        ∙ entry_of-add t n ts
        ∙ ap (λ z. if str_eq n.gpu_type t then add_node n z else z)
            (sym (entry_of-first t e ts false other)))
  ]
]

-- A field to which each node of the type adds its share is the sum of the shares.
module _ (F : TypeAvail → ℕ) (q : NodeAvail → Bool) (g : NodeAvail → ℕ)
    (grows : (n : NodeAvail) (e : TypeAvail) → F (add_node n e) ≡ F e + (if q n then g n else 0))
    (t : String) where
  field-total :
      (ns : List NodeAvail) (ts : List TypeAvail)
      → F (entry_of t (by_type_from ns ts))
        ≡ F (entry_of t ts) + sum_nodes (λ n. str_eq n.gpu_type t && q n) g ns
  unfolding by_type_from
  field-total [] ts = omega arith
  field-total (n ∷ ns) ts = elim (Bool-cases (str_eq n.gpu_type t)) [
    | inl same ↦ rw same (
        omega (
          arith,
          field-total ns (add_to_type n ts),
          ap F (added true same),
          grows n (entry_of t ts),
        ))
    | inr other ↦
        rw other (omega (arith, field-total ns (add_to_type n ts), ap F (added false other)))
  ]
    where
      added :
          (b : Bool)
          → str_eq n.gpu_type t ≡ b
          → entry_of t (add_to_type n ts)
            ≡ (if b then add_node n (entry_of t ts) else entry_of t ts)
      added b h =
          entry_of-add t n ts ∙ ap (λ c. if c then add_node n (entry_of t ts) else entry_of t ts) h

abbrev whole_node : NodeAvail → Bool
whole_node n = not n.fractional

total-grows :
    (n : NodeAvail) (e : TypeAvail)
    → (add_node n e).total ≡ e.total + (if not n.fractional then n.gpu_total else 0)
unfolding add_node
total-grows n e = ground arith

used-grows :
    (n : NodeAvail) (e : TypeAvail)
    → (add_node n e).used_by_type
      ≡ e.used_by_type + (if not n.fractional then n.gpu_total - n.gpu_free else 0)
unfolding add_node
used-grows n e = ground arith

fractional_free-grows :
    (n : NodeAvail) (e : TypeAvail)
    → (add_node n e).fractional_free ≡ e.fractional_free + (if n.fractional then n.gpu_free else 0)
unfolding add_node
fractional_free-grows n e = ground arith

vram_free-grows :
    (n : NodeAvail) (e : TypeAvail)
    → (add_node n e).vram_free ≡ e.vram_free + (if n.fractional then n.vram_free else 0)
unfolding add_node
vram_free-grows n e = ground arith

cores_free-grows :
    (n : NodeAvail) (e : TypeAvail)
    → (add_node n e).cores_free ≡ e.cores_free + (if n.fractional then n.cores_free else 0)
unfolding add_node
cores_free-grows n e = ground arith

slots_free-grows :
    (n : NodeAvail) (e : TypeAvail)
    → (add_node n e).slots_free ≡ e.slots_free + (if n.fractional then n.slots_free else 0)
unfolding add_node
slots_free-grows n e = ground arith

-- What is not in use is free.
unused :
    (q : NodeAvail → Bool) (ns : List NodeAvail)
    → All IsBounded ns
    → sum_nodes q (λ n. n.gpu_total) ns
      ≡ sum_nodes q (λ n. n.gpu_total - n.gpu_free) ns + sum_nodes q (λ n. n.gpu_free) ns
unused q [] h = omega arith
unused q (n ∷ ns) (h, hs) = elim (Bool-cases (q n)) [
  | inl counted ↦ rw counted (omega (arith, unused q ns hs))
  | inr other ↦ rw other (omega (arith, unused q ns hs))
]

-- The entry of a type is the sum over its nodes.
abbrev pub IsSumOf : String → TypeAvail → List NodeAvail → Type 0
IsSumOf t e ns =
    (e.total ≡ sum_nodes (dedicated t) (λ n. n.gpu_total) ns)
    × (free_of e ≡ sum_nodes (dedicated t) (λ n. n.gpu_free) ns)
    × (e.fractional_free ≡ sum_nodes (fractional t) (λ n. n.gpu_free) ns)
    × (e.vram_free ≡ sum_nodes (fractional t) (λ n. n.vram_free) ns)
    × (e.cores_free ≡ sum_nodes (fractional t) (λ n. n.cores_free) ns)
    × (e.slots_free ≡ sum_nodes (fractional t) (λ n. n.slots_free) ns)

-- The sums, and the GPUs that are free.
pub availability-totals :
    (db : Tables) (live : List LiveNode) (t : String)
    → let av = availability db (some live) in
      IsSumOf t (entry_of t av.by_type) av.by_node × All IsBounded av.by_node
unfolding availability
availability-totals db live t =
    let ns = by_node db live in
    let bounded = by_node-IsBounded db live in
    let total =
      field-total (λ e. e.total) (λ n. not n.fractional) (λ n. n.gpu_total) total-grows t ns [] in
    let used =
      field-total (λ e. e.used_by_type) (λ n. not n.fractional) (λ n. n.gpu_total - n.gpu_free)
        used-grows t ns [] in
    (
      (
        omega (arith, total),
        omega (arith, total, used, unused (dedicated t) ns bounded),
        omega (
          arith,
          field-total (λ e. e.fractional_free) (λ n. n.fractional) (λ n. n.gpu_free)
              fractional_free-grows t ns [],
        ),
        omega (
          arith,
          field-total (λ e. e.vram_free) (λ n. n.fractional) (λ n. n.vram_free) vram_free-grows t ns
              [],
        ),
        omega (
          arith,
          field-total (λ e. e.cores_free) (λ n. n.fractional) (λ n. n.cores_free) cores_free-grows t
              ns [],
        ),
        omega (
          arith,
          field-total (λ e. e.slots_free) (λ n. n.fractional) (λ n. n.slots_free) slots_free-grows t
              ns [],
        ),
      ),
      bounded,
    )

-- For every type of GPU, what the view by type says of the total, of the free GPUs, and of the
-- free memory, cores and slots of the shared ones is the sum of what the view by node says of
-- the nodes of that type: of those that are given out whole, and of those that are shared; and
-- where no session asks for a negative share, on every node the free GPUs, memory, cores and
-- slots are each at most what there is.
pub availability-IsSumOf :
    (db : Tables) (live : List LiveNode) (t : String)
    → All IsNonNegative db.sharing
    → let av = availability db (some live) in
      IsSumOf t (entry_of t av.by_type) av.by_node × All IsWithin av.by_node
unfolding availability
availability-IsSumOf db live t sane =
    ((availability-totals db live t).0, by_node-IsWithin db sane live)
