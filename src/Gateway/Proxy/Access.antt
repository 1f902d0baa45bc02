-- ===== src/Gateway/Proxy/Access.antt =====
-- Who gets through the gateway.
use giosk.Prelude.{
  ℕ, ◌+◌, ◌≤◌, ◌≡◌, inl, inr, refl, ap, subst, ◌∙◌, Bool, true, false, Option, none, some, [],
  String, if◌then◌else◌, arith, eq_iff, Bool-cases, length,
}
use giosk.Prelude.Text.{bytes_eq-eq, bytes_eq_refl}
use giosk.Gateway.Nonce.{Cache, use_jti, lookup}
use giosk.Gateway.Nonce.Once.{use_jti-expired, use_jti-stale}
use giosk.Gateway.Token.{
  Text, Claims, service_host, Crypto, IsSound, Verified, claims_of, refused_as, sign, verify,
}
use giosk.Gateway.Token.Signing.{sign-verify, Lives-early}
use giosk.Gateway.Proxy.{
  Config, Reads, no_cookie, bad_cookie, bad_token, swapped, replayed, Response, unknown_host,
  sign_error, denied, redirect, proxied, is_empty, subdomain, label_of, is_for, cookie_claims,
  issue, consume, exchange_claims, exchange, pass_on, serve_cookie, Request, serve_at, serve,
}

is_for-holds :
    (typ : String) (sub : Text) (c : Claims)
    → is_for typ sub c ≡ true
    → (c.typ ≡ typ) × (sub ≡ label_of c)
unfolding is_for
is_for-holds typ sub c h =
    (ground (arith, h, eq_iff c.typ typ), bytes_eq-eq sub (label_of c) (ground (arith, h)))

is_for-label : (typ : String) (c : Claims) → c.typ ≡ typ → is_for typ (label_of c) c ≡ true
unfolding is_for
is_for-label typ c h = ground (arith, h, eq_iff c.typ typ, bytes_eq_refl (label_of c))

module _ (k : Crypto) (cfg : Config) (r : Reads) (entropy : Option Text) where
  -- Why a request to the address `sub` is passed on: its cookie verifies, is a cookie of this
  -- address, and names the target.
  abbrev pub Admitted : Text → Request → Text → ℕ → Claims → Type 0
  Admitted sub q h port c =
      (val : Text) × ((q.cookie ≡ some val)
        × ((verify k val cfg.secret r.checked ≡ claims_of c)
            × ((c.typ ≡ "cookie")
                × ((sub ≡ label_of c) × ((h ≡ service_host c) × (port ≡ c.port))))))

  -- Why a token is exchanged: it verifies, is a web token of this address, is used for the first
  -- time, and the cookie is for the same claims.
  abbrev pub Exchanged : Text → Text → Cache → Text → Cache → Type 0
  Exchanged sub tok cache val cache' =
      (c : Claims) × ((verify k tok cfg.secret r.checked ≡ claims_of c)
        × ((c.typ ≡ "web")
            × ((sub ≡ label_of c)
                × ((use_jti c.jti c.exp r.consumed cache ≡ (true, cache'))
                    × (sign k (cookie_claims cfg r.issued c) cfg.secret entropy ≡ some val)))))

  -- Why a token uses up a nonce: it verifies, and is a web token of this address; `fresh` says
  -- whether this is its first use.
  abbrev pub Consumes : Bool → Text → Text → Cache → Cache → Claims → Type 0
  Consumes fresh sub tok cache cache' c =
      (verify k tok cfg.secret r.checked ≡ claims_of c)
      × ((c.typ ≡ "web")
          × ((sub ≡ label_of c) × (use_jti c.jti c.exp r.consumed cache ≡ (fresh, cache'))))

  abbrev pub JustifiedAt : Text → Request → Cache → Response × Cache → Type 0
  JustifiedAt sub q cache (proxied h port c, cache') = Admitted sub q h port c × (cache' ≡ cache)
  JustifiedAt sub q cache (redirect val, cache') = Exchanged sub q.access cache val cache'
  JustifiedAt sub q cache (denied replayed, cache') =
      (c : Claims) × (Consumes false sub q.access cache cache' c × (cache' ≡ cache))
  JustifiedAt sub q cache (denied no_cookie, cache') = cache' ≡ cache
  JustifiedAt sub q cache (denied bad_cookie, cache') = cache' ≡ cache
  JustifiedAt sub q cache (denied bad_token, cache') = cache' ≡ cache
  JustifiedAt sub q cache (denied swapped, cache') = cache' ≡ cache
  JustifiedAt sub q cache (sign_error, cache') =
      (c : Claims) × (Consumes true sub q.access cache cache' c
        × (sign k (cookie_claims cfg r.issued c) cfg.secret entropy ≡ none))
  JustifiedAt sub q cache (unknown_host, cache') = ⊥

  module _ (sub : Text) (q : Request) (cache : Cache) where
    passed :
        (val : Text) (c : Claims)
        → q.cookie ≡ some val
        → verify k val cfg.secret r.checked ≡ claims_of c
        → JustifiedAt sub q cache (pass_on sub c, cache)
    unfolding pass_on
    passed val c given ok = elim (Bool-cases (is_for "cookie" sub c)) [
      | inl fits ↦ rw fits (
          let (typ, here) = is_for-holds "cookie" sub c fits in
          ((val, (given, (ok, (typ, (here, (refl, refl)))))), refl))
      | inr other ↦ rw other refl
    ]

    by_cookie :
        (cookie : Option Text)
        → q.cookie ≡ cookie
        → JustifiedAt sub q cache (serve_cookie k cfg r.checked sub cookie, cache)
    unfolding serve_cookie
    by_cookie none given = refl
    by_cookie (some val) given = judge (verify k val cfg.secret r.checked) refl
      where
        judge :
            (v : Verified)
            → verify k val cfg.secret r.checked ≡ v
            → JustifiedAt sub q cache
                (elim v [ refused_as e ↦ denied bad_cookie | claims_of c ↦ pass_on sub c ], cache)
        judge (refused_as e) h = refl
        judge (claims_of c) h = passed val c given h

    stale-keeps :
        (c : Claims) (cache' : Cache)
        → use_jti c.jti c.exp r.consumed cache ≡ (false, cache')
        → cache' ≡ cache
    stale-keeps c cache' stale = use_jti-stale c.jti c.exp r.consumed cache cache' stale

    issued :
        (c : Claims) (cache' : Cache)
        → verify k q.access cfg.secret r.checked ≡ claims_of c
        → (c.typ ≡ "web") × (sub ≡ label_of c)
        → use_jti c.jti c.exp r.consumed cache ≡ (true, cache')
        → (o : Option Text) → sign k (cookie_claims cfg r.issued c) cfg.secret entropy ≡ o
        → JustifiedAt sub q cache (elim o [ none ↦ sign_error | some val ↦ redirect val ], cache')
    issued c cache' ok fits fresh none signed = (c, ((ok, (fits.0, (fits.1, fresh))), signed))
    issued c cache' ok fits fresh (some val) signed = (c, (ok, (fits.0, (fits.1, (fresh, signed)))))

    consumed_by :
        (c : Claims)
        → verify k q.access cfg.secret r.checked ≡ claims_of c
        → (c.typ ≡ "web") × (sub ≡ label_of c)
        → (u : Bool × Cache) → use_jti c.jti c.exp r.consumed cache ≡ u
        → JustifiedAt sub q cache (if u.0 then issue k cfg r entropy c else denied replayed, u.1)
    unfolding issue
    consumed_by c ok fits (true, cache') fresh = issued c cache' ok fits fresh _ refl
    consumed_by c ok fits (false, cache') stale =
        (c, ((ok, (fits.0, (fits.1, stale))), stale-keeps c cache' stale))

    by_token :
        (v : Verified)
        → verify k q.access cfg.secret r.checked ≡ v
        → JustifiedAt sub q cache (elim v [
          | refused_as e ↦ (denied bad_token, cache)
          | claims_of c ↦ exchange_claims k cfg r entropy sub c cache
        ])
    unfolding exchange_claims consume
    by_token (refused_as e) h = refl
    by_token (claims_of c) h = elim (Bool-cases (is_for "web" sub c)) [
      | inl fits ↦ rw fits (
          consumed_by c h (is_for-holds "web" sub c fits) (use_jti c.jti c.exp r.consumed cache)
            refl)
      | inr other ↦ rw other refl
    ]

  abbrev pub Justified : Request → Cache → Option Text → Response × Cache → Type 0
  Justified q cache none p = p ≡ (unknown_host, cache)
  Justified q cache (some sub) p = JustifiedAt sub q cache p

  -- A request is passed on to a session only by a cookie that verifies, was made as a cookie and
  -- is of the very address asked for; an address gets such a cookie only for a token that
  -- verifies, was made for the web and that address, and is fresh; an unknown host gets neither;
  -- the cache of nonces changes only by the use of such a fresh token, also where the cookie
  -- could then not be signed, and a replayed token leaves it as it was.
  pub serve-Justified :
      (q : Request) (cache : Cache)
      → Justified q cache (subdomain cfg q.host) (serve k cfg r entropy q cache)
  unfolding serve serve_at exchange
  serve-Justified q cache = at_host (subdomain cfg q.host)
    where
      at_sub :
          (sub : Text) (b : Bool)
          → JustifiedAt sub q cache (
              if b
              then (serve_cookie k cfg r.checked sub q.cookie, cache)
              else exchange k cfg r entropy sub q.access cache)
      at_sub sub true = by_cookie sub q cache q.cookie refl
      at_sub sub false = by_token sub q cache (verify k q.access cfg.secret r.checked) refl

      at_host :
          (s : Option Text)
          → Justified q cache s (elim s [
            | none ↦ (unknown_host, cache)
            | some sub ↦ serve_at k cfg r entropy sub q cache
          ])
      at_host none = refl
      at_host (some sub) = at_sub sub (is_empty q.access)

module _ (k : Crypto) (sound : IsSound k) (cfg : Config) (n : Text)
    (fits : length n ≡ k.nonce_size) where
  -- The cookie that an exchange hands out admits its holder: until its lifetime is over, every
  -- request with it to the address of the exchange is passed on to the session that the token
  -- named.
  pub exchange-serves :
      (r : Reads) (sub tok val : Text) (cache cache' : Cache) (now : ℕ)
      → exchange k cfg r (some n) sub tok cache ≡ (redirect val, cache')
      → now ≤ r.issued + cfg.cookie_ttl
      → (c : Claims) × ((verify k tok cfg.secret r.checked ≡ claims_of c)
          × (serve_cookie k cfg now sub (some val)
              ≡ proxied (service_host c) c.port (cookie_claims cfg r.issued c)))
  unfolding exchange serve_cookie
  exchange-serves r sub tok val cache cache' now done early =
      let (c, (ok, (typ, (here, (fresh, signed))))) = granted in
      (c, (ok, serves c here (cookie-verify c signed)))
    where
      q : Request
      q = record { host = []; access = tok; cookie = none }

      granted : Exchanged k cfg r (some n) sub tok cache val cache'
      granted =
          subst (JustifiedAt k cfg r (some n) sub q cache) done
            (by_token k cfg r (some n) sub q cache (verify k tok cfg.secret r.checked) refl)

      cookie-verify :
          (c : Claims)
          → sign k (cookie_claims cfg r.issued c) cfg.secret (some n) ≡ some val
          → verify k val cfg.secret now ≡ claims_of (cookie_claims cfg r.issued c)
      cookie-verify c signed =
          Lives-early now (cookie_claims cfg r.issued c) (verify k val cfg.secret now)
            (sign-verify k sound (cookie_claims cfg r.issued c) cfg.secret n val now fits signed)
            early

      serves :
          (c : Claims)
          → sub ≡ label_of c
          → verify k val cfg.secret now ≡ claims_of (cookie_claims cfg r.issued c)
          → serve_cookie k cfg now sub (some val)
            ≡ proxied (service_host c) c.port (cookie_claims cfg r.issued c)
      serves c here verified =
          rw
            (
              serve_cookie,
              verified,
              pass_on,
              ap (λ z. is_for "cookie" z (cookie_claims cfg r.issued c)) here
                  ∙ is_for-label "cookie" (cookie_claims cfg r.issued c) refl,
            )
            refl

module _ (k : Crypto) (cfg : Config) (r : Reads) (entropy : Option Text) where
  -- A web token that was exchanged before and is recorded in the cache is exchanged once more, for a
  -- cookie like the first, where it verifies and the nonce is consumed in the very second in which
  -- it expires.
  pub exchange-replays :
      (tok : Text) (c : Claims) (cache : Cache)
      → verify k tok cfg.secret r.checked ≡ claims_of c
      → c.typ ≡ "web"
      → lookup c.jti cache ≡ some c.exp
      → r.consumed ≡ c.exp
      → (exchange k cfg r entropy (label_of c) tok cache).0 ≡ issue k cfg r entropy c
  unfolding exchange issue
  exchange-replays tok c cache ok typ held last =
      rw
        (
          exchange,
          ok,
          exchange_claims,
          is_for-label "web" c typ,
          consume,
          use_jti-expired c.jti c.exp c.exp r.consumed cache held (ground (arith, last)),
        )
        refl
