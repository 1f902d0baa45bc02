-- ===== src/Gateway/Nonce.antt =====
-- backend/internal/gateway/nonce.go: the cache that makes an access token usable once. A time is
-- in Unix seconds, from 0 on.
pub mod Once
use giosk.Prelude.{
  ℕ, Bool, true, false, ◌&&◌, Option, none, some, List, [], ◌∷◌, String, str_eq, ltb, if◌then◌else◌,
  length, select_where,
}

-- seen: the expiry under each jti.
abbrev pub Cache : Type 0
Cache = List (String × ℕ)

unfoldable pub lookup : String → Cache → Option ℕ
lookup j [] = none
lookup j ((k, e) ∷ c) = if str_eq k j then some e else lookup j c

-- seen[j] = e
unfoldable pub store : String → ℕ → Cache → Cache
store j e [] = (j, e) ∷ []
store j e ((k, v) ∷ c) = if str_eq k j then (k, e) ∷ c else (k, v) ∷ store j e c

abbrev live_at : ℕ → String × ℕ → Bool
live_at now (k, e) = ltb now e

unfoldable pub cleanup : ℕ → Cache → Cache
cleanup now c = if ltb 1024 (length c) then select_where (live_at now) c else c

-- The entry is there and lives beyond `now`.
unfoldable pub taken : Option ℕ → ℕ → Bool
taken none now = false
taken (some e) now = ltb now e

unfoldable pub use_jti : String → ℕ → ℕ → Cache → Bool × Cache
unfolding cleanup taken
use_jti j exp now c =
    if str_eq j ""
    then (true, c)
    else if taken (lookup j c) now
    then (false, c)
    else (true, cleanup now (store j exp c))

pub used : String → ℕ → Cache → Bool
unfolding taken
used j now c = if str_eq j "" then false else taken (lookup j c) now
