-- ===== src/Session/HomeReaper.antt =====
-- backend/internal/session/homereaper.go: which stopped sessions are reclaimed, and which is spared.
-- An instant is in nanoseconds. The stamp on a row that has no instant is not modelled.
pub mod Profile
pub mod Spared
use giosk.Prelude.{
  ℕ, ◌-◌, ◌*◌, Bool, true, false, Option, none, some, List, [], ◌∷◌, String, str_eq, ltb, ◌==◌,
  if◌then◌else◌,
}

-- A row that ListStopped gave.
pub record Stopped : Type 0 where
  pub instance_id : String
  pub user_id : ℕ
  pub stopped_since : Option ℕ

-- keep and newest: under each user the instance and its instant.
abbrev pub Keep : Type 0
Keep = List (ℕ × (String × ℕ))

pub kept_of : ℕ → Keep → Option (String × ℕ)
kept_of u [] = none
kept_of u ((v, e) ∷ ks) = if v == u then some e else kept_of u ks

-- The newer of an entry and a session is kept.
put : ℕ → String → ℕ → Keep → Keep
put u i t [] = (u, (i, t)) ∷ []
put u i t ((v, (j, s)) ∷ ks) =
    if v == u
    then (if ltb s t then (u, (i, t)) ∷ ks else (v, (j, s)) ∷ ks)
    else (v, (j, s)) ∷ put u i t ks

note : Stopped → Keep → Keep
unfolding put
note r ks = elim r.stopped_since [ none ↦ ks | some t ↦ put r.user_id r.instance_id t ks ]

pub profile_from : List Stopped → Keep → Keep
unfolding note
profile_from [] ks = ks
profile_from (r ∷ rs) ks = profile_from rs (note r ks)

-- stoppedProfile
pub stopped_profile : List Stopped → Keep
unfolding profile_from
stopped_profile rows = profile_from rows []

abbrev pub ttl_of : ℕ → ℕ
ttl_of days = days * 86400000000000

spared : Keep → Stopped → Bool
unfolding kept_of
spared ks r = elim (kept_of r.user_id ks) [ none ↦ false | some e ↦ str_eq e.0 r.instance_id ]

expired : ℕ → ℕ → Stopped → Bool
expired days now r = elim r.stopped_since [
  | none ↦ false
  | some t ↦ if ltb (now - t) (ttl_of days) then false else true
]

reap_from : Keep → ℕ → ℕ → List Stopped → List Stopped
unfolding spared expired
reap_from ks days now [] = []
reap_from ks days now (r ∷ rs) =
    if expired days now r
    then (if spared ks r then reap_from ks days now rs else r ∷ reap_from ks days now rs)
    else reap_from ks days now rs

-- reapStaleHomes: the sessions whose deletion it asks for, in order. 0 days turn it off.
unfoldable pub reap_stale_homes : ℕ → ℕ → List Stopped → List Stopped
unfolding stopped_profile reap_from
reap_stale_homes days now rows =
    if days == 0 then [] else reap_from (stopped_profile rows) days now rows
