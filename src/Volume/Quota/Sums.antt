-- ===== src/Volume/Quota/Sums.antt =====
-- What the statements on the table of volumes do to the sums of sizes.
use giosk.Prelude.{
  ℕ, ◌≡◌, refl, ap, subst, inl, inr, pos_part, neg_part, Bool, false, some, List, [], ◌∷◌, ◌++◌, ℤ,
  pos, ◌+ℤ◌, ◌≤ℤ◌, int_laws, arith, Bool-cases, All, ◌<◌, ◌==◌, if◌then◌else◌, first_where,
  select_where, update_where,
}
use giosk.Volume.Store.{Volume, is_id, sum_gib}

-- What a volume adds to the sum.
abbrev pub gib : (Volume → Bool) → Volume → ℤ
gib p v = if p v then v.size_gib else pos 0

-- No two volumes have the same id.
abbrev pub Distinct : List Volume → Type 0
Distinct [] = Unit
Distinct (v ∷ vs) = All (λ (w : Volume). (w.id == v.id) ≡ false) vs × Distinct vs

abbrev pub Sizes : List Volume → Type 0
Sizes vs = All (λ (v : Volume). pos 0 ≤ℤ v.size_gib) vs

-- The ids have been given out.
abbrev pub Old : ℕ → List Volume → Type 0
Old n vs = All (λ (v : Volume). v.id < n) vs

sum_added : (a b c d : ℤ) → b ≡ c +ℤ d → a +ℤ b ≡ (a +ℤ c) +ℤ d
sum_added a b c d h = rw h (omega int_laws)

pub sum_gib-insert :
    (p : Volume → Bool) (vs : List Volume) (row : Volume)
    → sum_gib p (vs ++ row ∷ []) ≡ sum_gib p vs +ℤ gib p row
sum_gib-insert p [] row = omega int_laws
sum_gib-insert p (v ∷ vs) row =
    sum_added (gib p v) (sum_gib p (vs ++ row ∷ [])) (sum_gib p vs) (gib p row)
      (sum_gib-insert p vs row)

pub Distinct-insert :
    (vs : List Volume) (row : Volume) → Distinct vs → Old row.id vs → Distinct (vs ++ row ∷ [])
Distinct-insert [] row h old = (tt, tt)
Distinct-insert (v ∷ vs) row (apart, rest) (older, old) =
    (still vs apart, Distinct-insert vs row rest old)
  where
    still :
        (ws : List Volume)
        → All (λ (w : Volume). (w.id == v.id) ≡ false) ws
        → All (λ (w : Volume). (w.id == v.id) ≡ false) (ws ++ row ∷ [])
    still [] h = (ground (arith, older), tt)
    still (w ∷ ws) (h, hs) = (h, still ws hs)

-- A statement that keeps what is summed up.
pub sum_gib-update_same :
    (p q : Volume → Bool) (f : Volume → Volume) (vs : List Volume)
    → ((v : Volume) → gib p (f v) ≡ gib p v)
    → sum_gib p (update_where q f vs) ≡ sum_gib p vs
sum_gib-update_same p q f [] h = refl
sum_gib-update_same p q f (v ∷ vs) h = elim (Bool-cases (q v)) [
  | inl hit ↦ rw (hit, h v, sum_gib-update_same p q f vs h) refl
  | inr miss ↦ rw (miss, sum_gib-update_same p q f vs h) refl
]

pub All-update :
    (P : Volume → Type 0) (q : Volume → Bool) (f : Volume → Volume) (vs : List Volume)
    → ((v : Volume) → P v → P (f v))
    → All P vs
    → All P (update_where q f vs)
All-update P q f [] h hs = tt
All-update P q f (v ∷ vs) h (k, ks) = (
  elim (Bool-cases (q v)) [ inl hit ↦ rw hit (h v k) | inr miss ↦ rw miss k ],
  All-update P q f vs h ks,
)

pub Distinct-update :
    (q : Volume → Bool) (f : Volume → Volume) (vs : List Volume)
    → ((v : Volume) → (f v).id ≡ v.id)
    → Distinct vs
    → Distinct (update_where q f vs)
Distinct-update q f [] h d = tt
Distinct-update q f (v ∷ vs) h (apart, rest) = (
  elim (Bool-cases (q v)) [
    | inl hit ↦
        rw (hit, h v)
          (All-update (λ (w : Volume). (w.id == v.id) ≡ false) q f vs (λ w k. rw (h w) k) apart)
    | inr miss ↦
        rw miss
          (All-update (λ (w : Volume). (w.id == v.id) ≡ false) q f vs (λ w k. rw (h w) k) apart)
  ],
  Distinct-update q f vs h rest,
)

update-none :
    (i : ℕ) (f : Volume → Volume) (vs : List Volume)
    → All (λ (w : Volume). (w.id == i) ≡ false) vs
    → update_where (is_id i) f vs ≡ vs
update-none i f [] h = refl
update-none i f (v ∷ vs) (h, hs) = rw (h, update-none i f vs hs) refl

sum_swapped : (a b c : ℤ) → (b +ℤ c) +ℤ a ≡ (a +ℤ c) +ℤ b
sum_swapped a b c = omega int_laws

sum_under : (a s t x y : ℤ) → s +ℤ x ≡ t +ℤ y → (a +ℤ s) +ℤ x ≡ (a +ℤ t) +ℤ y
sum_under a s t x y h = omega (int_laws, ap pos_part h, ap neg_part h)

-- The one volume that is found by its id is changed.
pub sum_gib-update_found :
    (p : Volume → Bool) (i : ℕ) (f : Volume → Volume) (vs : List Volume) (v : Volume)
    → Distinct vs
    → first_where (is_id i) vs ≡ some v
    → sum_gib p (update_where (is_id i) f vs) +ℤ gib p v ≡ sum_gib p vs +ℤ gib p (f v)
sum_gib-update_found p i f [] v d h = ground (arith, h)
sum_gib-update_found p i f (w ∷ vs) v (apart, rest) h = elim (Bool-cases (w.id == i)) [
  | inl hit ↦
      let same : v ≡ w = ground (arith, h, hit) in
      let same_id : w.id ≡ i = ground (arith, hit) in
      let rest_same : update_where (is_id i) f vs ≡ vs =
        update-none i f vs
          (subst (λ (n : ℕ). All (λ (x : Volume). (x.id == n) ≡ false) vs) same_id apart) in
      rw (hit, same, rest_same) (sum_swapped (gib p w) (gib p (f w)) (sum_gib p vs))
  | inr miss ↦ rw miss (
      sum_under (gib p w) (sum_gib p (update_where (is_id i) f vs)) (sum_gib p vs) (gib p v)
        (gib p (f v)) (sum_gib-update_found p i f vs v rest (ground (arith, h, miss))))
]

pub gib_nonneg : (p : Volume → Bool) (v : Volume) → pos 0 ≤ℤ v.size_gib → pos 0 ≤ℤ gib p v
gib_nonneg p v h = elim (Bool-cases (p v)) [ inl hit ↦ rw hit h | inr miss ↦ rw miss (omega arith) ]

sum_mono : (a s t : ℤ) → s ≤ℤ t → a +ℤ s ≤ℤ a +ℤ t
sum_mono a s t h = omega (int_laws, h)

sum_less : (a s t : ℤ) → pos 0 ≤ℤ a → s ≤ℤ t → s ≤ℤ a +ℤ t
sum_less a s t h k = omega (int_laws, h, k)

pub sum_gib-remove :
    (p q : Volume → Bool) (vs : List Volume)
    → Sizes vs
    → sum_gib p (select_where q vs) ≤ℤ sum_gib p vs
sum_gib-remove p q [] h = omega int_laws
sum_gib-remove p q (v ∷ vs) (h, hs) = elim (Bool-cases (q v)) [
  | inl hit ↦
      rw hit (
        sum_mono (gib p v) (sum_gib p (select_where q vs)) (sum_gib p vs)
          (sum_gib-remove p q vs hs))
  | inr miss ↦ rw miss (
      sum_less (gib p v) (sum_gib p (select_where q vs)) (sum_gib p vs) (gib_nonneg p v h)
        (sum_gib-remove p q vs hs))
]

pub All-remove :
    (P : Volume → Type 0) (q : Volume → Bool) (vs : List Volume)
    → All P vs
    → All P (select_where q vs)
All-remove P q [] h = tt
All-remove P q (v ∷ vs) (h, hs) = elim (Bool-cases (q v)) [
  | inl hit ↦ rw hit (h, All-remove P q vs hs)
  | inr miss ↦ rw miss (All-remove P q vs hs)
]

pub Distinct-remove :
    (q : Volume → Bool) (vs : List Volume) → Distinct vs → Distinct (select_where q vs)
Distinct-remove q [] h = tt
Distinct-remove q (v ∷ vs) (apart, rest) = elim (Bool-cases (q v)) [
  | inl hit ↦
      rw hit
        (All-remove (λ (w : Volume). (w.id == v.id) ≡ false) q vs apart, Distinct-remove q vs rest)
  | inr miss ↦ rw miss (Distinct-remove q vs rest)
]
