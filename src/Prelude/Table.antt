-- ===== src/Prelude/Table.antt =====
-- A database table as the list of its rows, with the statements that the repositories issue.
use Prim.Native.Nat.{ℕ, suc}
use mathlib.Core.Path.{◌≡◌, refl}
use mathlib.Core.Logic.{◌⊎◌}
use mathlib.Core.Bool.{Bool, true, false, ◌||◌}
use mathlib.Core.Option.{Option, none, some}
use mathlib.Core.Option
use mathlib.Core.List.{List, [], ◌∷◌, ◌++◌}
use native.Mathlib.Omega.{arith}
use giosk.Prelude.Tests.{if◌then◌else◌}

module _ {ℓ} {A : Type ℓ} where
  abbrev pub length : List A → ℕ
  length [] = 0
  length (x ∷ xs) = suc (length xs)

  -- SELECT … WHERE p LIMIT 1
  abbrev pub first_where : (A → Bool) → List A → Option A
  first_where p [] = none
  first_where p (x ∷ xs) = if p x then some x else first_where p xs

  -- SELECT … WHERE p
  abbrev pub select_where : (A → Bool) → List A → List A
  select_where p [] = []
  select_where p (x ∷ xs) = if p x then x ∷ select_where p xs else select_where p xs

  -- UPDATE … SET f WHERE p
  abbrev pub update_where : (A → Bool) → (A → A) → List A → List A
  update_where p f [] = []
  update_where p f (x ∷ xs) = (if p x then f x else x) ∷ update_where p f xs

  -- INSERT IGNORE: the row is added if no row has its key.
  abbrev pub insert_ignore : (A → Bool) → A → List A → List A
  insert_ignore p a [] = a ∷ []
  insert_ignore p a (x ∷ xs) = if p x then x ∷ xs else x ∷ insert_ignore p a xs

  abbrev pub any_where : (A → Bool) → List A → Bool
  any_where p [] = false
  any_where p (x ∷ xs) = p x || any_where p xs

  -- An update that keeps the key is seen by a look-up with the same condition.
  pub first_where-update_self :
      (p : A → Bool) (f : A → A)
      → ((x : A) → p (f x) ≡ p x)
      → (xs : List A) → first_where p (update_where p f xs) ≡ Option.map f (first_where p xs)
  first_where-update_self p f h [] = refl
  first_where-update_self p f h (x ∷ xs) = ground (arith, h x, first_where-update_self p f h xs)

  -- It is not seen by a look-up whose rows it does not touch.
  pub first_where-update_ne :
      (p q : A → Bool) (f : A → A)
      → ((x : A) → q (f x) ≡ q x)
      → ((x : A) → p x ≡ true → q x ≡ false)
      → (xs : List A) → first_where q (update_where p f xs) ≡ first_where q xs
  first_where-update_ne p q f h apart [] = refl
  first_where-update_ne p q f h apart (x ∷ xs) =
      ground (arith, h x, apart x, first_where-update_ne p q f h apart xs)

  -- After INSERT IGNORE the key is found: the old row, or else the new one.
  pub first_where-insert_self :
      (p : A → Bool) (a : A)
      → p a ≡ true
      → (xs : List A)
      → first_where p (insert_ignore p a xs)
        ≡ elim (first_where p xs) [ none ↦ some a | some x ↦ some x ]
  first_where-insert_self p a h [] = ground (arith, h)
  first_where-insert_self p a h (x ∷ xs) = ground (arith, first_where-insert_self p a h xs)

  pub first_where-insert_ne :
      (p q : A → Bool) (a : A)
      → q a ≡ false
      → (xs : List A) → first_where q (insert_ignore p a xs) ≡ first_where q xs
  first_where-insert_ne p q a h [] = ground (arith, h)
  first_where-insert_ne p q a h (x ∷ xs) = ground (arith, first_where-insert_ne p q a h xs)

-- Membership, as a recursion that the tactics read.
abbrev pub Elem : {A : Type 0} → A → List A → Type 0
Elem a [] = ⊥
Elem a (x ∷ xs) = (a ≡ x) ⊎ Elem a xs

abbrev pub All {ℓ κ} : {A : Type ℓ} → (A → Type κ) → List A → Type κ
All P [] = Unit
All P (x ∷ xs) = P x × All P xs

pub All-map :
    {A : Type 0} {P Q : A → Type 0} (xs : List A) → ((x : A) → P x → Q x) → All P xs → All Q xs
All-map [] f h = tt
All-map (x ∷ xs) f (h, hs) = (f x h, All-map xs f hs)

pub All-every : {A : Type 0} {P : A → Type 0} (xs : List A) → ((x : A) → P x) → All P xs
All-every [] f = tt
All-every (x ∷ xs) f = (f x, All-every xs f)

pub All-map2 :
    {A : Type 0} {P Q R : A → Type 0} (xs : List A)
    → ((x : A) → P x → Q x → R x)
    → All P xs
    → All Q xs
    → All R xs
All-map2 [] f h k = tt
All-map2 (x ∷ xs) f (h, hs) (k, ks) = (f x h k, All-map2 xs f hs ks)

pub All-snoc :
    {A : Type 0} (P : A → Type 0) (xs : List A) (y : A) → All P xs → P y → All P (xs ++ y ∷ [])
All-snoc P [] y h k = (k, tt)
All-snoc P (x ∷ xs) y (h, hs) k = (h, All-snoc P xs y hs k)

pub All-change :
    {A : Type 0} (P : A → Type 0) (xs ys : List A) (y y' : A)
    → (P y → P y')
    → All P (xs ++ y ∷ ys)
    → All P (xs ++ y' ∷ ys)
All-change P [] ys y y' f (h, hs) = (f h, hs)
All-change P (x ∷ xs) ys y y' f (h, hs) = (h, All-change P xs ys y y' f hs)

pub All-delete :
    {A : Type 0} (P : A → Type 0) (xs ys : List A) (y : A) → All P (xs ++ y ∷ ys) → All P (xs ++ ys)
All-delete P [] ys y (h, hs) = hs
All-delete P (x ∷ xs) ys y (h, hs) = (h, All-delete P xs ys y hs)
