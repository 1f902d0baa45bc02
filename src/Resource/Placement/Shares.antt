-- ===== src/Resource/Placement/Shares.antt =====
-- When a share of a GPU is let in.
use giosk.Prelude.{
  ℕ, suc, ◌≤◌, ◌≡◌, ◌↔◌, refl, sym, ap, ◌∙◌, ◌⊎◌, inl, inr, Bool, true, false, ◌&&◌, some, List, [],
  ◌∷◌, str_eq, ℤ, pos, ◌+ℤ◌, ◌-ℤ◌, ◌≤ℤ◌, -ℤ_parts, +ℤ_parts, ltb_ℤ, any_where, Elem, arith,
  if◌then◌else◌, Bool-cases,
}
use giosk.Resource.Counter.{shared, ShareUse}
use giosk.Resource.Availability.{Tables, LiveNode, NodeAvail, Availability, availability}
use giosk.Resource.Placement.{
  PlaceReq, fits_shared, can_place_anywhere, can_place, is_unknown, hold_of,
}

-- The node is shared out, of the type, and has a slot, the memory and the cores for the session beside
-- all that waits; an amount that is not positive is not asked for.
abbrev pub HasRoom : PlaceReq → ShareUse → NodeAvail → Type 0
HasRoom r hold n =
    (n.fractional ≡ true)
    × (str_eq n.gpu_type r.gpu_type ≡ true)
    × (suc hold.count ≤ n.slots_free)
    × ((r.vram_mb ≤ℤ pos 0) ⊎ (r.vram_mb +ℤ hold.vram_mb ≤ℤ pos n.vram_free))
    × ((r.core_percent ≤ℤ pos 0) ⊎ (r.core_percent +ℤ hold.cores ≤ℤ pos n.cores_free))

slot-free : (free held : ℕ) → ltb_ℤ (pos free -ℤ pos held) (pos 1) ≡ false → suc held ≤ free
slot-free free held h = ground (arith, h, -ℤ_parts (pos free) (pos held))

slot-taken : (free held : ℕ) → suc held ≤ free → ltb_ℤ (pos free -ℤ pos held) (pos 1) ≡ false
slot-taken free held h = ground (arith, h, -ℤ_parts (pos free) (pos held))

-- `ask > 0 && free-held < ask`
abbrev lacks : ℤ → ℕ → ℤ → Bool
lacks ask free held = ltb_ℤ (pos 0) ask && ltb_ℤ (pos free -ℤ held) ask

lacks-room :
    (ask : ℤ) (free : ℕ) (held : ℤ)
    → lacks ask free held ≡ false
    → (ask ≤ℤ pos 0) ⊎ (ask +ℤ held ≤ℤ pos free)
lacks-room ask free held h = ground (arith, h, -ℤ_parts (pos free) held, +ℤ_parts ask held)

room-lacks :
    (ask : ℤ) (free : ℕ) (held : ℤ)
    → (ask ≤ℤ pos 0) ⊎ (ask +ℤ held ≤ℤ pos free)
    → lacks ask free held ≡ false
room-lacks ask free held h = ground (arith, h, -ℤ_parts (pos free) held, +ℤ_parts ask held)

none_lacks :
    (a b c : Bool)
    → (if a then false else if b then false else if c then false else true) ≡ true
    → (a ≡ false) × (b ≡ false) × (c ≡ false)
none_lacks a b c h = ground (arith, h)

fits-HasRoom :
    (n : NodeAvail) (r : PlaceReq) (hold : ShareUse)
    → n.fractional && str_eq n.gpu_type r.gpu_type && fits_shared n r hold ≡ true
    → HasRoom r hold n
unfolding fits_shared
fits-HasRoom n r hold h =
    let (split, same, fits) =
      both n.fractional (str_eq n.gpu_type r.gpu_type) (fits_shared n r hold) h in
    let (slot, memory, cores) =
      none_lacks (ltb_ℤ (pos n.slots_free -ℤ pos hold.count) (pos 1))
        (lacks r.vram_mb n.vram_free hold.vram_mb) (lacks r.core_percent n.cores_free hold.cores)
        fits in
    (
      split,
      same,
      slot-free n.slots_free hold.count slot,
      lacks-room r.vram_mb n.vram_free hold.vram_mb memory,
      lacks-room r.core_percent n.cores_free hold.cores cores,
    )
  where
    both : (a b c : Bool) → a && b && c ≡ true → (a ≡ true) × (b ≡ true) × (c ≡ true)
    both a b c k = ground (arith, k)

HasRoom-fits :
    (n : NodeAvail) (r : PlaceReq) (hold : ShareUse)
    → HasRoom r hold n
    → n.fractional && str_eq n.gpu_type r.gpu_type && fits_shared n r hold ≡ true
unfolding fits_shared
HasRoom-fits n r hold (split, same, slot, memory, cores) =
    rw
      (
        split,
        same,
        slot-taken n.slots_free hold.count slot,
        room-lacks r.vram_mb n.vram_free hold.vram_mb memory,
        room-lacks r.core_percent n.cores_free hold.cores cores,
      )
      refl

module _ {A : Type 0} (p : A → Bool) where
  any-Elem : (xs : List A) → any_where p xs ≡ true → (x : A) × (Elem x xs × (p x ≡ true))
  any-Elem [] h = absurd (ground (arith, h))
  any-Elem (x ∷ xs) h = elim (Bool-cases (p x)) [
    | inl here ↦ (x, (inl refl, here))
    | inr there ↦ let (y, (m, q)) = any-Elem xs (ground (arith, h, there)) in (y, (inr m, q))
  ]

  Elem-any : (xs : List A) (x : A) → Elem x xs → p x ≡ true → any_where p xs ≡ true
  Elem-any [] x m q = elim m [ ]
  Elem-any (y ∷ ys) x (inl e) q = rw (ap p (sym e) ∙ q) refl
  Elem-any (y ∷ ys) x (inr m) q = elim (Bool-cases (p y)) [
    | inl here ↦ rw here refl
    | inr there ↦ rw (there, Elem-any ys x m q) refl
  ]

module _ (db : Tables) (live : List LiveNode) (r : PlaceReq) where
  abbrev pub view : Availability
  view = availability db (some live)

  -- A request for a share of a GPU that names a type and no node is let in exactly where one single node
  -- has room for it, beside all the shares of that type that wait, as long as the cluster shows a GPU.
  pub can_place-HasRoom :
      r.mode ≡ shared
      → str_eq r.gpu_type "" ≡ false
      → str_eq r.node "" ≡ true
      → is_unknown view ≡ false
      → (can_place db (some live) r ≡ true)
        ↔ ((n : NodeAvail) × (Elem n view.by_node × HasRoom r (hold_of db r.gpu_type).share n))
  unfolding can_place can_place_anywhere
  can_place-HasRoom mode named free known =
      let test = λ (n : NodeAvail).
        n.fractional
        && str_eq n.gpu_type r.gpu_type
        && fits_shared n r (hold_of db r.gpu_type).share in
      rw (mode, named, free, known)
        (
          (λ h.
              let (n, (m, q)) = any-Elem test view.by_node h in
              (n, (m, fits-HasRoom n r (hold_of db r.gpu_type).share q))),
          (λ found.
              let (n, (m, room)) = found in
              Elem-any test view.by_node n m (HasRoom-fits n r (hold_of db r.gpu_type).share room)),
        )
