-- ===== src/Prelude/Text.antt =====
-- Texts that the program takes apart byte by byte: lists of bytes, and strconv.ParseInt in base 10
-- at 64 bits.
use Prim.Native.Char.{code}
use Prim.Native.Nat.{ℕ, zero, suc, ◌/◌, ◌%◌, ◌+◌, ◌-◌, ◌*◌, ◌^◌, ◌<◌}
use Prim.Native.String.{String, ◌++◌ as append}
use mathlib.Core.Path.{◌≡◌, refl, ap}
use mathlib.Core.Logic.{inl, inr}
use mathlib.Core.Bool.{Bool, true, false, ◌&&◌}
use mathlib.Core.Option.{Option, none, some}
use mathlib.Core.List.{List, [], ◌∷◌}
use native.Mathlib.Omega.{arith}
use giosk.Prelude.Tests.{ltb, leb, Bool-cases, ◌==◌, if◌then◌else◌}
use giosk.Prelude.Int.{ℤ, pos, negsuc, sub_ℕ}

abbrev pub codes : String → List ℕ
codes String.[] = []
codes (String.◌∷◌ c s) = code c ∷ codes s

abbrev pub bytes_eq : List ℕ → List ℕ → Bool
bytes_eq [] [] = true
bytes_eq [] (_ ∷ _) = false
bytes_eq (_ ∷ _) [] = false
bytes_eq (x ∷ xs) (y ∷ ys) = x == y && bytes_eq xs ys

pub bytes_eq-eq : (xs ys : List ℕ) → bytes_eq xs ys ≡ true → xs ≡ ys
bytes_eq-eq [] [] h = refl
bytes_eq-eq [] (y ∷ ys) h = ground arith
bytes_eq-eq (x ∷ xs) [] h = ground arith
bytes_eq-eq (x ∷ xs) (y ∷ ys) h = ground (arith, bytes_eq-eq xs ys)

pub bytes_eq_refl : (xs : List ℕ) → bytes_eq xs xs ≡ true
bytes_eq_refl [] = refl
bytes_eq_refl (x ∷ xs) = ground (arith, bytes_eq_refl xs)

-- The text before the first byte `c`, and the text behind it (strings.IndexByte and two slices).
pub cut_at : ℕ → List ℕ → Option (List ℕ × List ℕ)
cut_at c [] = none
cut_at c (x ∷ xs) =
    if x == c
    then some ([], xs)
    else elim (cut_at c xs) [ none ↦ none | some p ↦ some (x ∷ p.0, p.1) ]

abbrev is_digit : ℕ → Bool
is_digit c = leb b'0' c && leb c b'9'

-- The value of a run of digits behind the value `n` read so far.
digits_from : ℕ → List ℕ → Option ℕ
digits_from n [] = some n
digits_from n (c ∷ cs) =
    let rest = digits_from (n * 10 + (c - b'0')) cs in if is_digit c then rest else none

unsigned : List ℕ → Option ℕ
unfolding digits_from
unsigned [] = none
unsigned (c ∷ cs) = digits_from 0 (c ∷ cs)

-- The range check of an int64.
in_range : Bool → ℕ → Option ℤ
in_range false n = if ltb n (2 ^ 63) then some (pos n) else none
in_range true n = if leb n (2 ^ 63) then some (sub_ℕ 0 n) else none

signed : Bool → List ℕ → Option ℤ
unfolding unsigned in_range
signed negative cs = elim (unsigned cs) [ none ↦ none | some n ↦ in_range negative n ]

unfoldable pub parse_int : List ℕ → Option ℤ
unfolding signed
parse_int [] = none
parse_int (c ∷ cs) =
    if c == b'-'
    then signed true cs
    else if c == b'+'
    then signed false cs
    else signed false (c ∷ cs)

parse_int-runs : parse_int (codes "-42") ≡ some (negsuc 41)
unfolding parse_int
parse_int-runs = refl

parse_int-rejects : parse_int (codes "4x") ≡ none
unfolding parse_int
parse_int-rejects = refl

-- A digit, and a number in base 10 (%d); `fuel` is more than the number has digits.
abbrev nth : ℕ → List String → String
nth n [] = "9"
nth n (d ∷ ds) = if n == 0 then d else nth (n - 1) ds

abbrev digit : ℕ → String
digit n = nth n ("0" ∷ "1" ∷ "2" ∷ "3" ∷ "4" ∷ "5" ∷ "6" ∷ "7" ∷ "8" ∷ [])

unfoldable pub decimal_from : ℕ → ℕ → String
decimal_from zero n = ""
decimal_from (suc fuel) n =
    let front = decimal_from fuel (n / 10) in
    if ltb n 10 then digit n else append front (digit (n % 10))

-- More fuel than the number is enough: any such fuel gives the same digits.
decimal_from-enough : (f g n : ℕ) → n < f → n < g → decimal_from f n ≡ decimal_from g n
unfolding decimal_from
decimal_from-enough zero g n h k = ground arith
decimal_from-enough (suc f) zero n h k = ground arith
decimal_from-enough (suc f) (suc g) n h k = elim (Bool-cases (ltb n 10)) [
  | inl small ↦ rw small refl
  | inr large ↦ rw large (
      ap (λ s. append s (digit (n % 10)))
        (decimal_from-enough f g (n / 10) (ground arith) (ground arith)))
]

unfoldable pub decimal : ℕ → String
unfolding decimal_from
decimal n = decimal_from (suc n) n

decimal-204 : decimal 204 ≡ "204"
unfolding decimal
decimal-204 = refl

-- %d of an int64.
unfoldable pub decimal_ℤ : ℤ → String
unfolding decimal
decimal_ℤ (pos n) = decimal n
decimal_ℤ (negsuc n) = append "-" (decimal (suc n))
