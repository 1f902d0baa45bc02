-- ===== src/Gateway/Token/Signing.antt =====
-- What is signed verifies.
use giosk.Prelude.{
  ℕ, ◌≤◌, ◌<◌, ◌≡◌, refl, sym, ◌⊎◌, inl, inr, ap, subst, false, Option, none, some, [], ◌∷◌, ◌++◌,
  ltb, length, arith,
}
use giosk.Gateway.Token.{
  Text, Claims, Crypto, IsSound, Verified, claims_of, refused_as, expired, gcm_for, front, back,
  split_at, sign, check_expiry, parsed, opened, verify,
}

front-append : (n t : Text) → front (length n) (n ++ t) ≡ n
front-append [] t = refl
front-append (x ∷ n) t = ap (λ z. x ∷ z) (front-append n t)

back-append : (n t : Text) → back (length n) (n ++ t) ≡ t
back-append [] t = refl
back-append (x ∷ n) t = back-append n t

not_shorter : (n t : Text) → ltb (length (n ++ t)) (length n) ≡ false
not_shorter [] t = ground arith
not_shorter (x ∷ n) t = ground (arith, not_shorter n t)

split_at-append : (n t : Text) → split_at (length n) (n ++ t) ≡ some (n, t)
unfolding split_at
split_at-append n t = rw (not_shorter n t, front-append n t, back-append n t) refl

-- What a token with the claims `c` verifies to: to them until it expires, where it does at all, and
-- as expired from the second after.
abbrev pub Lives : ℕ → Claims → Verified → Type 0
Lives now c v =
    (((c.exp ≡ 0) ⊎ (now ≤ c.exp)) × (v ≡ claims_of c))
    ⊎ ((0 < c.exp) × ((c.exp < now) × (v ≡ refused_as expired)))

check_expiry-Lives : (now : ℕ) (c : Claims) → Lives now c (check_expiry now c)
unfolding check_expiry
check_expiry-Lives now c = ground arith

module _ (k : Crypto) (sound : IsSound k) (c : Claims) (secret n tok : Text) (now : ℕ)
    (fits : length n ≡ k.nonce_size) where
  signed_with :
      (key t : Text)
      → gcm_for k secret ≡ some key
      → k.marshal c ≡ some t
      → verify k (k.encode (n ++ k.seal key n t)) secret now ≡ check_expiry now c
  unfolding verify opened parsed
  signed_with key t eg em =
      let raw = n ++ k.seal key n t in
      let cut : split_at k.nonce_size raw ≡ some (n, k.seal key n t) =
        subst (λ z. split_at z raw ≡ some (n, k.seal key n t)) fits
          (split_at-append n (k.seal key n t)) in
      rw
        (
          verify,
          sound.decode-encode raw,
          eg,
          opened,
          cut,
          sound.open-seal key n t,
          parsed,
          sound.unmarshal-marshal c t em,
        )
        refl

  signed :
      (g m : Option Text)
      → gcm_for k secret ≡ g
      → k.marshal c ≡ m
      → sign k c secret (some n) ≡ some tok
      → verify k tok secret now ≡ check_expiry now c
  unfolding sign
  signed none m eg em h = ground (arith, eg, h)
  signed (some key) none eg em h = ground (arith, eg, em, h)
  signed (some key) (some t) eg em h =
      subst (λ z. verify k z secret now ≡ check_expiry now c) (ground (arith, eg, em, h))
        (signed_with key t eg em)

  -- For a sound codec, a token signed with a nonce of the right size verifies under the same
  -- secret to its own claims in every second up to its expiry, or always where it has none, and
  -- as expired from the second after.
  pub sign-verify : sign k c secret (some n) ≡ some tok → Lives now c (verify k tok secret now)
  sign-verify h =
      subst (Lives now c) (sym (signed (gcm_for k secret) (k.marshal c) refl refl h))
        (check_expiry-Lives now c)

-- A token that has not expired verifies to its claims.
pub Lives-early :
    (now : ℕ) (c : Claims) (v : Verified) → Lives now c v → now ≤ c.exp → v ≡ claims_of c
Lives-early now c v (inl (_, same)) early = same
Lives-early now c v (inr (_, (late, _))) early = ground (arith, late, early)
