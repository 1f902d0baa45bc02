-- ===== src/Gateway/Proxy.antt =====
-- backend/internal/gateway/proxy.go and sshproxy.go: the decisions of the two proxies. The pages, the
-- priming of the backend's own cookies and the copying of data are left out.
pub mod Access
use giosk.Prelude.{
  ℕ, ◌+◌, Bool, true, false, ◌&&◌, not, Option, none, some, List, [], ◌∷◌, ◌++◌, String, str_eq,
  if◌then◌else◌,
}
use giosk.Prelude.Text.{codes, bytes_eq, cut_at}
use giosk.Gateway.Nonce.{Cache, use_jti, used}
use giosk.Gateway.Token.{
  Text, Claims, service_host, Crypto, Verified, claims_of, refused_as, sign, verify,
}

pub record Config : Type 0 where
  pub domain : Text
  pub secret : Text
  pub cookie_ttl : ℕ

-- The instants at which one exchange reads the clock: for Verify, for the nonce, for the cookie.
pub record Reads : Type 0 where
  pub checked : ℕ
  pub consumed : ℕ
  pub issued : ℕ

pub data Reason : Type 0 where
  no_cookie bad_cookie bad_token swapped replayed : Reason

pub data Response : Type 0 where
  unknown_host sign_error : Response
  denied : Reason → Response
  redirect : Text → Response
  proxied : Text → ℕ → Claims → Response

-- The text before `suffix`, if the text ends in it.
abbrev pub strip_suffix : Text → Text → Option Text
strip_suffix suffix [] = if bytes_eq suffix [] then some [] else none
strip_suffix suffix (x ∷ t) =
    if bytes_eq suffix (x ∷ t)
    then some []
    else elim (strip_suffix suffix t) [ none ↦ none | some front ↦ some (x ∷ front) ]

abbrev trim_suffix : Text → Text → Text
trim_suffix suffix t = elim (strip_suffix suffix t) [ none ↦ t | some front ↦ front ]

abbrev contains : ℕ → Text → Bool
contains b t = elim (cut_at b t) [ none ↦ false | some _ ↦ true ]

abbrev is_empty : Text → Bool
is_empty [] = true
is_empty (_ ∷ _) = false

host_name : Text → Text
host_name host = elim (cut_at b':' host) [ none ↦ host | some p ↦ p.0 ]

single_label : Text → Option Text
single_label sub = if is_empty sub then none else if contains b'.' sub then none else some sub

pub subdomain : Config → Text → Option Text
unfolding host_name single_label
subdomain cfg host =
    elim (strip_suffix (b'.' ∷ cfg.domain) (trim_suffix (b'.' ∷ []) (host_name host))) [
      | none ↦ none
      | some sub ↦ single_label sub
    ]

-- claims.IID + "-" + claims.Ch
abbrev pub label_of : Claims → Text
label_of c = codes c.iid ++ b'-' ∷ codes c.ch

-- Of the type `typ`, and for the address that was asked for.
unfoldable pub is_for : String → Text → Claims → Bool
is_for typ sub c = str_eq c.typ typ && bytes_eq sub (label_of c)

-- The claims of the cookie that a token is exchanged for.
abbrev pub cookie_claims : Config → ℕ → Claims → Claims
cookie_claims cfg now c = record c { typ = "cookie"; jti = ""; exp = now + cfg.cookie_ttl }

unfoldable pub issue : Crypto → Config → Reads → Option Text → Claims → Response
issue k cfg r entropy c = elim (sign k (cookie_claims cfg r.issued c) cfg.secret entropy) [
  | none ↦ sign_error
  | some val ↦ redirect val
]

unfoldable pub consume : Crypto → Config → Reads → Option Text → Claims → Cache → Response × Cache
unfolding issue
consume k cfg r entropy c cache =
    let (fresh, cache') = use_jti c.jti c.exp r.consumed cache in
    (if fresh then issue k cfg r entropy c else denied replayed, cache')

unfoldable pub exchange_claims :
    Crypto → Config → Reads → Option Text → Text → Claims → Cache → Response × Cache
unfolding consume
exchange_claims k cfg r entropy sub c cache =
    if is_for "web" sub c then consume k cfg r entropy c cache else (denied swapped, cache)

unfoldable pub exchange :
    Crypto → Config → Reads → Option Text → Text → Text → Cache → Response × Cache
unfolding exchange_claims
exchange k cfg r entropy sub tok cache = elim (verify k tok cfg.secret r.checked) [
  | refused_as e ↦ (denied bad_token, cache)
  | claims_of c ↦ exchange_claims k cfg r entropy sub c cache
]

pass_on : Text → Claims → Response
unfolding is_for
pass_on sub c =
    if is_for "cookie" sub c then proxied (service_host c) c.port c else denied bad_cookie

pub serve_cookie : Crypto → Config → ℕ → Text → Option Text → Response
unfolding pass_on
serve_cookie k cfg now sub none = denied no_cookie
serve_cookie k cfg now sub (some val) = elim (verify k val cfg.secret now) [
  | refused_as e ↦ denied bad_cookie
  | claims_of c ↦ pass_on sub c
]

-- The host, the access parameter (empty where there is none) and the gw_sess cookie of a request.
pub record Request : Type 0 where
  pub host : Text
  pub access : Text
  pub cookie : Option Text

serve_at : Crypto → Config → Reads → Option Text → Text → Request → Cache → Response × Cache
serve_at k cfg r entropy sub q cache =
    if is_empty q.access
    then (serve_cookie k cfg r.checked sub q.cookie, cache)
    else exchange k cfg r entropy sub q.access cache

-- ServeHTTP
pub serve : Crypto → Config → Reads → Option Text → Request → Cache → Response × Cache
unfolding serve_at
serve k cfg r entropy q cache = elim (subdomain cfg q.host) [
  | none ↦ (unknown_host, cache)
  | some sub ↦ serve_at k cfg r entropy sub q cache
]

-- The callback of the SSH handshake: the claims of a token that may be used.
pub verify_user : Crypto → Config → ℕ → Text → Cache → Option Claims
verify_user k cfg now user cache = elim (verify k user cfg.secret now) [
  | refused_as e ↦ none
  | claims_of c ↦
      if not (str_eq c.typ "ssh") then none else if used c.jti now cache then none else some c
]

-- The account and the host that an SSH session is connected to.
abbrev pub backend_of : Claims → Text × Text
backend_of c = (
  if str_eq c.user "" then codes "work" else codes c.user,
  if str_eq c.tgt "container" then service_host c else codes c.host,
)

-- `handle`, from the handshake to the target: the token is consumed once the handshake is through.
pub connect : Crypto → Config → Reads → Text → Cache → Option (Text × Text) × Cache
connect k cfg r user cache = elim (verify_user k cfg r.checked user cache) [
  | none ↦ (none, cache)
  | some c ↦
      let (fresh, cache') = use_jti c.jti c.exp r.consumed cache in
      (if fresh then some (backend_of c) else none, cache')
]
