-- ===== src/Gateway/Tests.antt =====
-- Runs of the gateway on one token and the cookie that it is exchanged for, with a codec that knows
-- these two claims alone.
use giosk.Prelude.{
  ◌≡◌, ◌≢◌, refl, sym, ap, ◌⊎◌, inl, inr, Bool, true, false, ◌&&◌, none, some, List, [], ◌∷◌,
  String, str_eq, eq_iff, arith, ◌==◌, if◌then◌else◌,
}
use giosk.Prelude.Text.{codes}
use giosk.Gateway.Nonce.{lookup, store, cleanup, taken, use_jti, used}
use giosk.Gateway.Nonce.Once.{Call, after, use_jti-once}
use giosk.Gateway.Token.{
  Text, Claims, service_host, Crypto, IsSound, claims_of, gcm_for, split_at, sign, check_expiry,
  parsed, opened, verify,
}
use giosk.Gateway.Token.Signing.{Lives, sign-verify}
use giosk.Gateway.Proxy.{
  Config, Reads, redirect, proxied, Request, subdomain, label_of, is_for, cookie_claims, issue,
  consume, exchange_claims, exchange, serve_cookie, serve,
}
use giosk.Gateway.Proxy.Access.{Justified, serve-Justified, exchange-serves, exchange-replays}

abbrev token : Claims
token = record {
  iid = "i-1";
  ch = "vscode";
  ns = "giosk";
  port = 8080;
  sub = 1;
  typ = "web";
  tgt = "container";
  host = "";
  user = "work";
  secret = "s";
  exp = 100;
  jti = "n-1";
}

abbrev config : Config
config = record { domain = codes "gw.local"; secret = []; cookie_ttl = 50 }

abbrev reads : Reads
reads = record { checked = 100; consumed = 100; issued = 100 }

abbrev cookie : Claims
cookie = cookie_claims config 100 token

abbrev same_claims : Claims → Claims → Bool
same_claims c d =
    str_eq c.iid d.iid
    && (str_eq c.ch d.ch
        && (str_eq c.ns d.ns
            && (c.port == d.port
                && (c.sub == d.sub
                    && (str_eq c.typ d.typ
                        && (str_eq c.tgt d.tgt
                            && (str_eq c.host d.host
                                && (str_eq c.user d.user
                                    && (str_eq c.secret d.secret
                                        && (c.exp == d.exp && str_eq c.jti d.jti))))))))))

same_claims-eq : (c d : Claims) → same_claims c d ≡ true → c ≡ d
same_claims-eq c d h = ground (
  arith,
  h,
  eq_iff c.iid d.iid,
  eq_iff c.ch d.ch,
  eq_iff c.ns d.ns,
  eq_iff c.typ d.typ,
  eq_iff c.tgt d.tgt,
  eq_iff c.host d.host,
  eq_iff c.user d.user,
  eq_iff c.secret d.secret,
  eq_iff c.jti d.jti,
)

abbrev codec : Crypto
codec = record {
  sha256 = λ t. t;
  new_gcm = λ t. some t;
  nonce_size = 2;
  seal = λ key n p. p;
  open_sealed = λ key n t. some t;
  marshal = λ c.
      if same_claims c token
      then some (1 ∷ [])
      else if same_claims c cookie
      then some (2 ∷ [])
      else none;
  unmarshal = λ t. elim t [ [] ↦ none | x ∷ _ ↦ if x == 1 then some token else some cookie ];
  encode = λ t. t;
  decode = λ t. some t;
}

picked :
    (a b : Bool) (t : Text)
    → (if a then some (1 ∷ []) else if b then some (2 ∷ []) else none) ≡ some t
    → ((a ≡ true) × (t ≡ 1 ∷ [])) ⊎ ((b ≡ true) × (t ≡ 2 ∷ []))
picked a b t h = ground (arith, h)

unmarshal-marshal-codec :
    (c : Claims) (t : Text) → codec.marshal c ≡ some t → codec.unmarshal t ≡ some c
unmarshal-marshal-codec c t h = elim (picked (same_claims c token) (same_claims c cookie) t h) [
  | inl (is_token, e) ↦ rw e (ap (λ x. some x) (sym (same_claims-eq c token is_token)))
  | inr (is_cookie, e) ↦ rw e (ap (λ x. some x) (sym (same_claims-eq c cookie is_cookie)))
]

codec-IsSound : IsSound codec
codec-IsSound = record {
  decode-encode = λ t. refl;
  open-seal = λ key n p. refl;
  unmarshal-marshal = unmarshal-marshal-codec;
}

abbrev entropy : Text
entropy = 9 ∷ 9 ∷ []

token-signed : sign codec token [] (some entropy) ≡ some (9 ∷ 9 ∷ 1 ∷ [])
unfolding sign gcm_for
token-signed = refl

sign-verify_example : Lives 100 token (verify codec (9 ∷ 9 ∷ 1 ∷ []) [] 100)
sign-verify_example =
    sign-verify codec codec-IsSound token [] entropy (9 ∷ 9 ∷ 1 ∷ []) 100 refl token-signed

exchanged :
    exchange codec config reads (some entropy) (label_of token) (9 ∷ 9 ∷ 1 ∷ []) []
    ≡ (redirect (9 ∷ 9 ∷ 2 ∷ []), ("n-1", 100) ∷ [])
unfolding exchange exchange_claims consume issue is_for verify opened parsed split_at check_expiry
    gcm_for sign use_jti store cleanup taken lookup
exchanged = refl

exchange-serves_example :
    (c : Claims) × ((verify codec (9 ∷ 9 ∷ 1 ∷ []) [] 100 ≡ claims_of c)
      × (serve_cookie codec config 140 (label_of token) (some (9 ∷ 9 ∷ 2 ∷ []))
          ≡ proxied (service_host c) c.port (cookie_claims config 100 c)))
exchange-serves_example =
    exchange-serves codec codec-IsSound config entropy refl reads (label_of token) (9 ∷ 9 ∷ 1 ∷ [])
      (9 ∷ 9 ∷ 2 ∷ []) [] (("n-1", 100) ∷ []) 140 exchanged (ground arith)

token-verified : verify codec (9 ∷ 9 ∷ 1 ∷ []) [] 100 ≡ claims_of token
unfolding verify opened parsed split_at check_expiry gcm_for
token-verified = refl

entry-held : lookup "n-1" (("n-1", 100) ∷ []) ≡ some 100
unfolding lookup
entry-held = refl

exchange-replays_example :
    (exchange codec config reads
      (some entropy)
      (label_of token)
      (9 ∷ 9 ∷ 1 ∷ [])
      (("n-1", 100) ∷ [])).0
    ≡ issue codec config reads (some entropy) token
exchange-replays_example =
    exchange-replays codec config reads (some entropy) (9 ∷ 9 ∷ 1 ∷ []) token (("n-1", 100) ∷ [])
      token-verified refl entry-held refl

abbrev request : Request
request = record { host = codes "i-1-vscode.gw.local"; access = []; cookie = some (9 ∷ 9 ∷ 2 ∷ []) }

serve-Justified_example :
    Justified codec config reads
      (some entropy)
      request
      []
      (subdomain config request.host)
      (serve codec config reads (some entropy) request [])
serve-Justified_example = serve-Justified codec config reads (some entropy) request []

abbrev calls : List Call
calls = ("n-2", (90, 60)) ∷ ("n-1", (100, 70)) ∷ []

first-use : (use_jti "n-1" 100 50 []).0 ≡ true
unfolding use_jti taken lookup
first-use = refl

n-1-named : ◌≢◌ {A = String} "n-1" ""
n-1-named = ground (arith, eq_iff "n-1" "")

use_jti-once_example :
    ((use_jti "n-1" 100 99 (after calls (use_jti "n-1" 100 50 []).1)).0 ≡ false)
    × (used "n-1" 99 (after calls (use_jti "n-1" 100 50 []).1) ≡ true)
use_jti-once_example =
    use_jti-once "n-1" 100 50 [] calls 100 99 n-1-named (ground arith) first-use
      (ground arith, (ground arith, tt)) (ground arith)
