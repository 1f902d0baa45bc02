-- ===== src/Volume/Sharing/Regrant.antt =====
-- The shares of a volume once one was given anew.
use giosk.Prelude.{
  ℕ, ◌≡◌, ◌≢◌, refl, ap, ◌∙◌, ◌⊎◌, inl, inr, Bool, true, false, ◌&&◌, ◌||◌, not, none, some, List,
  [], ◌∷◌, ◌++◌, String, str_eq, arith, Bool-cases, All, ◌==◌, if◌then◌else◌, select_where,
  any_where,
}
use giosk.Wallet.Db.{Membership}
use giosk.Volume.Store.{Share}
use giosk.Volume.Sharing.{same_target, in_group, applies, strongest}

-- A share has one target, as AddShare writes it.
abbrev pub Single : Share → Type 0
Single s = (s.shared_with_user_id ≡ none) ⊎ (s.shared_with_group_id ≡ none)

abbrev is_rw : Share → Bool
is_rw s = str_eq s.permission "rw"

abbrev pub given : ℕ → ℕ → String → Share
given i u perm = record {
  volume_id = i;
  shared_with_user_id = some u;
  shared_with_group_id = none;
  permission = perm;
}

-- The shares once `u` was given the volume `i`.
abbrev pub regranted : ℕ → ℕ → String → List Share → List Share
regranted i u perm ss =
    select_where (λ x. not (same_target i (some u) none x)) ss ++ given i u perm ∷ []

-- The permissions that `u` has on the volume `i` through groups.
abbrev pub rw_by_group : List Membership → ℕ → ℕ → List Share → Bool
rw_by_group ms i u ss =
    any_where
      (λ (x : Share).
        x.volume_id == i && in_group ms u x.shared_with_group_id && str_eq x.permission "rw")
      ss

pub regranted-Single :
    (i u : ℕ) (perm : String) (ss : List Share) → All Single ss → All Single (regranted i u perm ss)
regranted-Single i u perm [] h = (inr refl, tt)
regranted-Single i u perm (s ∷ ss) (h, hs) = elim (Bool-cases (same_target i (some u) none s)) [
  | inl same ↦ rw same (regranted-Single i u perm ss hs)
  | inr other ↦ rw other (h, regranted-Single i u perm ss hs)
]

module _ (ms : List Membership) (i u : ℕ) where
  -- A share with `u` that is taken away gave nothing to another user, or on another volume.
  removed-applies :
      (j x : ℕ)
      → (x ≢ u) ⊎ (j ≢ i)
      → (s : Share) → Single s
      → same_target i (some u) none s ≡ true
      → applies ms j x s ≡ false
  removed-applies j x apart s single same = ground (arith, apart, single, same)

  given-applies :
      (perm : String) (j x : ℕ) → (x ≢ u) ⊎ (j ≢ i) → applies ms j x (given i u perm) ≡ false
  given-applies perm j x apart = ground (arith, apart)

  given-applies_self : (perm : String) → applies ms i u (given i u perm) ≡ true
  given-applies_self perm = ground arith

  pub select-regranted :
      (perm : String) (j x : ℕ)
      → (x ≢ u) ⊎ (j ≢ i)
      → (ss : List Share) → All Single ss
      → select_where (applies ms j x) (regranted i u perm ss) ≡ select_where (applies ms j x) ss
  select-regranted perm j x apart [] h = rw (given-applies perm j x apart) refl
  select-regranted perm j x apart (s ∷ ss) (h, hs) =
      let rest = select-regranted perm j x apart ss hs in
      elim (Bool-cases (same_target i (some u) none s)) [
        | inl same ↦ rw (same, removed-applies j x apart s h same) rest
        | inr other ↦ rw other (elim (Bool-cases (applies ms j x s)) [
          | inl here ↦ rw here (ap (λ z. s ∷ z) rest)
          | inr not_here ↦ rw not_here rest
        ])
      ]

  -- What is left to `u` of the other shares is what groups give.
  pub any_rw-removed :
      (ss : List Share)
      → All Single ss
      → any_where is_rw (
          select_where
            (applies ms i u)
            (select_where (λ x. not (same_target i (some u) none x)) ss))
        ≡ rw_by_group ms i u ss
  any_rw-removed [] h = refl
  any_rw-removed (s ∷ ss) (h, hs) = let rest = any_rw-removed ss hs in ground (arith, rest, h)

  pub select-given :
      (perm : String) (ss : List Share)
      → select_where (applies ms i u) (ss ++ given i u perm ∷ [])
        ≡ select_where (applies ms i u) ss ++ given i u perm ∷ []
  select-given perm [] = rw (given-applies_self perm) refl
  select-given perm (s ∷ ss) = elim (Bool-cases (applies ms i u s)) [
    | inl here ↦ rw here (ap (λ z. s ∷ z) (select-given perm ss))
    | inr not_here ↦ rw not_here (select-given perm ss)
  ]

any_rw-snoc :
    (xs : List Share) (y : Share) → any_where is_rw (xs ++ y ∷ []) ≡ (any_where is_rw xs || is_rw y)
any_rw-snoc [] y = ground arith
any_rw-snoc (x ∷ xs) y = ground (arith, any_rw-snoc xs y)

pub strongest-snoc :
    (xs : List Share) (y : Share)
    → strongest (xs ++ y ∷ []) ≡ some (if any_where is_rw xs || is_rw y then "rw" else "ro")
strongest-snoc [] y = ground arith
strongest-snoc (x ∷ xs) y =
    ap (λ b. some (if is_rw x || b then "rw" else "ro")) (any_rw-snoc xs y) ∙ ground arith
