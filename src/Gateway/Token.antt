-- ===== src/Gateway/Token.antt =====
-- backend/internal/gateway/claims.go and token.go: the access token. AES-GCM, SHA-256, base64 and
-- JSON are packages of Go: `Crypto` holds what the gateway calls of them, `IsSound` what they promise.
-- A text is the list of its bytes.
pub mod Signing
use giosk.Prelude.{
  ℕ, Bool, true, false, ◌&&◌, Option, none, some, List, [], ◌∷◌, ◌++◌, String, ltb, if◌then◌else◌,
  length, zero, suc, ◌≡◌,
}
use giosk.Prelude.Text.{codes}

abbrev pub Text : Type 0
Text = List ℕ

pub record Claims : Type 0 where
  pub iid : String
  pub ch : String
  pub ns : String
  pub port : ℕ
  pub sub : ℕ
  pub typ : String
  pub tgt : String
  pub host : String
  pub user : String
  pub secret : String
  pub exp : ℕ
  pub jti : String

-- ServiceHost
abbrev pub service_host : Claims → Text
service_host c = codes c.iid ++ b'.' ∷ (codes c.ns ++ codes ".svc.cluster.local")

-- A key stands for the AEAD that it makes.
pub record Crypto : Type 0 where
  pub sha256 : Text → Text
  pub new_gcm : Text → Option Text
  pub nonce_size : ℕ
  pub seal : Text → Text → Text → Text
  pub open_sealed : Text → Text → Text → Option Text
  pub marshal : Claims → Option Text
  pub unmarshal : Text → Option Claims
  pub encode : Text → Text
  pub decode : Text → Option Text

pub record IsSound (k : Crypto) : Type 0 where
  pub decode-encode : (t : Text) → k.decode (k.encode t) ≡ some t
  pub open-seal : (key n p : Text) → k.open_sealed key n (k.seal key n p) ≡ some p
  pub unmarshal-marshal : (c : Claims) (t : Text) → k.marshal c ≡ some t → k.unmarshal t ≡ some c

pub data TokenError : Type 0 where
  invalid expired cipher : TokenError

pub data Verified : Type 0 where
  claims_of : Claims → Verified
  refused_as : TokenError → Verified

-- gcmFor of deriveKey
unfoldable pub gcm_for : Crypto → Text → Option Text
gcm_for k secret = k.new_gcm (k.sha256 secret)

abbrev front : ℕ → Text → Text
front zero raw = []
front (suc n) [] = []
front (suc n) (x ∷ raw) = x ∷ front n raw

abbrev back : ℕ → Text → Text
back zero raw = raw
back (suc n) [] = []
back (suc n) (x ∷ raw) = back n raw

-- raw[:n] and raw[n:], or none if raw is shorter.
unfoldable pub split_at : ℕ → Text → Option (Text × Text)
split_at n raw = if ltb (length raw) n then none else some (front n raw, back n raw)

infixl 5 ◌>>=◌
abbrev ◌>>=◌ : {A B : Type 0} → Option A → (A → Option B) → Option B
none >>= f = none
some a >>= f = f a

-- Sign, with the bytes that rand.Reader gave for the nonce, if it gave any.
unfoldable pub sign : Crypto → Claims → Text → Option Text → Option Text
sign k c secret entropy = do
  key ← gcm_for k secret
  pt ← k.marshal c
  nonce ← entropy
  some (k.encode (nonce ++ k.seal key nonce pt))

unfoldable pub check_expiry : ℕ → Claims → Verified
check_expiry now c = if ltb 0 c.exp && ltb c.exp now then refused_as expired else claims_of c

unfoldable pub parsed : Crypto → ℕ → Option Text → Verified
unfolding check_expiry
parsed k now pt = elim pt [
  | none ↦ refused_as invalid
  | some t ↦ elim (k.unmarshal t) [ none ↦ refused_as invalid | some c ↦ check_expiry now c ]
]

unfoldable pub opened : Crypto → ℕ → Text → Text → Verified
unfolding split_at parsed
opened k now key raw = elim (split_at k.nonce_size raw) [
  | none ↦ refused_as invalid
  | some p ↦ parsed k now (k.open_sealed key p.0 p.1)
]

-- Verify
unfoldable pub verify : Crypto → Text → Text → ℕ → Verified
unfolding opened gcm_for
verify k tok secret now = elim (k.decode tok) [
  | none ↦ refused_as invalid
  | some raw ↦ elim (gcm_for k secret) [
    | none ↦ refused_as cipher
    | some key ↦ opened k now key raw
  ]
]
