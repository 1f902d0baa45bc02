-- ===== src/Gateway/Nonce/Once.antt =====
-- Single use until the expiry.
use giosk.Prelude.{
  ℕ, ◌≡◌, ◌≢◌, refl, ◌∙◌, inl, inr, ◌<◌, ◌≤◌, true, false, Option, none, some, List, [], ◌∷◌,
  String, str_eq, ltb, length, select_where, arith, eq_iff, All, Bool-cases,
}
use giosk.Gateway.Nonce.{Cache, lookup, store, live_at, cleanup, taken, use_jti, used}

lookup-store_self : (j : String) (e : ℕ) (c : Cache) → lookup j (store j e c) ≡ some e
unfolding lookup store
lookup-store_self j e [] = ground (arith, eq_iff j j)
lookup-store_self j e ((k, v) ∷ c) = ground (arith, lookup-store_self j e c)

lookup-store_ne :
    (j k : String) (e : ℕ) (c : Cache) → str_eq k j ≡ false → lookup j (store k e c) ≡ lookup j c
unfolding lookup store
lookup-store_ne j k e [] h = ground (arith, h)
lookup-store_ne j k e ((l, v) ∷ c) h =
    ground (arith, h, eq_iff l k, eq_iff l j, eq_iff k j, lookup-store_ne j k e c h)

lookup-live :
    (j : String) (e now : ℕ) (c : Cache)
    → lookup j c ≡ some e
    → now < e
    → lookup j (select_where (live_at now) c) ≡ some e
unfolding lookup
lookup-live j e now [] h l = ground arith
lookup-live j e now ((k, v) ∷ c) h l = ground (arith, h, l, lookup-live j e now c)

-- An entry that lives beyond `now` survives the clean-up.
lookup-cleanup :
    (j : String) (e now : ℕ) (c : Cache)
    → lookup j c ≡ some e
    → now < e
    → lookup j (cleanup now c) ≡ some e
unfolding cleanup
lookup-cleanup j e now c h l = elim (Bool-cases (ltb 1024 (length c))) [
  | inl large ↦ rw large (lookup-live j e now c h l)
  | inr small ↦ rw small h
]

stored-kept :
    (j k : String) (e exp now : ℕ) (c : Cache)
    → lookup j c ≡ some e
    → now < e
    → taken (lookup k c) now ≡ false
    → lookup j (cleanup now (store k exp c)) ≡ some e
unfolding taken
stored-kept j k e exp now c h l free = elim (Bool-cases (str_eq k j)) [
  | inl same ↦ elim (clash same) [ ]
  | inr other ↦ lookup-cleanup j e now (store k exp c) (lookup-store_ne j k exp c other ∙ h) l
]
  where
    lives : (o : Option ℕ) → o ≡ some e → taken o now ≡ true
    lives none q = ground (arith, q)
    lives (some v) q = ground (arith, q, l)

    clash : str_eq k j ≡ true → ⊥
    clash same = grind (arith, eq_iff k j, lives (lookup k c), h, free)

-- A use at an instant before the expiry of an entry keeps that entry.
use-keeps :
    (j k : String) (e exp now : ℕ) (c : Cache)
    → lookup j c ≡ some e
    → now < e
    → lookup j (use_jti k exp now c).1 ≡ some e
unfolding use_jti
use-keeps j k e exp now c h l = elim (Bool-cases (str_eq k "")) [
  | inl empty ↦ rw empty h
  | inr named ↦ rw named (elim (Bool-cases (taken (lookup k c) now)) [
    | inl held ↦ rw held h
    | inr free ↦ rw free (stored-kept j k e exp now c h l free)
  ])
]

-- A call of `use`: the jti, the expiry that is stored, the instant.
abbrev pub Call : Type 0
Call = String × (ℕ × ℕ)

-- The cache after a sequence of calls, by whichever connections.
abbrev pub after : List Call → Cache → Cache
after [] c = c
after ((k, (exp, now)) ∷ calls) c = after calls (use_jti k exp now c).1

after-keeps :
    (j : String) (e : ℕ) (calls : List Call) (c : Cache)
    → All (λ (call : Call). call.1.1 < e) calls
    → lookup j c ≡ some e
    → lookup j (after calls c) ≡ some e
after-keeps j e [] c before h = h
after-keeps j e ((k, (exp, now)) ∷ calls) c (l, before) h =
    after-keeps j e calls (use_jti k exp now c).1 before (use-keeps j k e exp now c h l)

used-stored :
    (j : String) (exp now : ℕ) (c : Cache)
    → j ≢ ""
    → now < exp
    → (use_jti j exp now c).0 ≡ true
    → lookup j (use_jti j exp now c).1 ≡ some exp
unfolding use_jti
used-stored j exp now c named l won = elim (Bool-cases (str_eq j "")) [
  | inl empty ↦ elim (named (ground (arith, eq_iff j "", empty))) [ ]
  | inr full ↦ elim (Bool-cases (taken (lookup j c) now)) [
    | inl held ↦ elim (lost full held) [ ]
    | inr free ↦
        rw (full, free) (lookup-cleanup j exp now (store j exp c) (lookup-store_self j exp c) l)
  ]
]
  where
    lost : str_eq j "" ≡ false → taken (lookup j c) now ≡ true → ⊥
    lost full held = ground (arith, won, full, held)

refused :
    (j : String) (e exp now : ℕ) (c : Cache)
    → j ≢ ""
    → lookup j c ≡ some e
    → now < e
    → ((use_jti j exp now c).0 ≡ false) × (used j now c ≡ true)
unfolding use_jti used taken
refused j e exp now c named h l = elim (Bool-cases (str_eq j "")) [
  | inl empty ↦ elim (named (ground (arith, eq_iff j "", empty))) [ ]
  | inr full ↦ rw (full, h) (ground (arith, l))
]

-- A jti that has been consumed before its expiry is refused by every later use before the expiry
-- and is reported as used, whatever calls for whatever tokens come in between, the clean-up of the
-- cache included, as long as they too come before the expiry.
pub use_jti-once :
    (j : String) (exp t : ℕ) (c : Cache) (calls : List Call) (exp' now : ℕ)
    → j ≢ ""
    → t < exp
    → (use_jti j exp t c).0 ≡ true
    → All (λ (call : Call). call.1.1 < exp) calls
    → now < exp
    → ((use_jti j exp' now (after calls (use_jti j exp t c).1)).0 ≡ false)
      × (used j now (after calls (use_jti j exp t c).1) ≡ true)
use_jti-once j exp t c calls exp' now named l won before last =
    refused j exp exp' now (after calls (use_jti j exp t c).1) named
      (after-keeps j exp calls (use_jti j exp t c).1 before (used-stored j exp t c named l won))
      last

-- From the very second of its expiry on, an entry no longer refuses.
pub use_jti-expired :
    (j : String) (e exp now : ℕ) (c : Cache)
    → lookup j c ≡ some e
    → e ≤ now
    → (use_jti j exp now c).0 ≡ true
unfolding use_jti taken
use_jti-expired j e exp now c h l = elim (Bool-cases (str_eq j "")) [
  | inl empty ↦ rw empty refl
  | inr full ↦ rw (full, h) (ground (arith, l))
]

-- A nonce that is refused changes nothing.
pub use_jti-stale :
    (j : String) (exp now : ℕ) (c c' : Cache) → use_jti j exp now c ≡ (false, c') → c' ≡ c
unfolding use_jti
use_jti-stale j exp now c c' h = ground (arith, h)
