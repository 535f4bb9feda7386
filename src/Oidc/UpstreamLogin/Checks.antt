-- ===== src/Oidc/UpstreamLogin/Checks.antt =====
-- What the checks of cmd/oidc/oidcserver/handle-upstream-callback.go establish.
use kubauth.Base.{
  ◌≡◌, ◌≢◌, refl, inl, inr, String, false, Option, none, some, ◌==◌, arith, eq_iff, Bool-cases,
}
use kubauth.Misc.Claims.{Claims, get, normalize_string_array}
use kubauth.Proto.{Result, ok, err}
use kubauth.Oidc.UpstreamLogin.{
  and_then, check_request, known_upstream, verifier_of, exchanged, exchange_code, text_of,
  check_nonce, id_claims_of, check, CallbackRequest, LoginSession, Token, UpstreamProvider, Server,
  Checked, refused, passed,
}

and_then_inv :
    {A B : Type 0} (m : Checked A) (f : A → Checked B) (b : B)
    → and_then m f ≡ passed b
    → (a : A) × (m ≡ passed a) × (f a ≡ passed b)
and_then_inv (refused code text) f b h = cc
and_then_inv (passed a) f b h = (a, refl, h)

-- The request comes back from the round trip of this session.
pub record OfSession (q : CallbackRequest) (s : LoginSession) : Type 0 where
  pub is_get : q.method ≡ "GET"
  pub no_error : q.error ≡ ""
  pub has_code : q.code ≢ ""
  pub same_state : s.upstream_state ≡ q.state
  pub has_state : q.state ≢ ""

pub check_request-OfSession :
    (q : CallbackRequest) (s : LoginSession) → check_request q s ≡ passed tt → OfSession q s
unfolding check_request
check_request-OfSession q s h = record {
  is_get = ground (arith, eq_iff q.method "GET", h);
  no_error = ground (arith, eq_iff q.error "", h);
  has_code = (λ k. ground (arith, eq_iff q.code "", h, k));
  same_state = ground (arith, eq_iff s.upstream_state q.state, h);
  has_state = (λ k. ground (arith, eq_iff q.state "", h, k));
}

-- An ID token that came with the exchange is verified and has the nonce of the session.
pub record Vouched (u : UpstreamProvider) (tok : Token) (s : LoginSession) : Type 0 where
  pub verified :
      tok.id_token ≢ ""
      → (c : Claims) × (u.parse_and_verify_id_token tok.id_token ≡ ok c)
        × (s.upstream_nonce ≢ ""
            → text_of (get "nonce" (normalize_string_array c)) ≡ s.upstream_nonce)

check_nonce_inv :
    (s : LoginSession) (r : Result Claims) (base : Claims)
    → check_nonce s r ≡ passed base
    → (c : Claims) × (r ≡ ok c)
      × (s.upstream_nonce ≢ ""
          → text_of (get "nonce" (normalize_string_array c)) ≡ s.upstream_nonce)
unfolding check_nonce
check_nonce_inv s (err e) base h = cc
check_nonce_inv s (ok c) base h = (
  c,
  refl,
  λ ne. ground (
    arith,
    eq_iff s.upstream_nonce "",
    eq_iff (text_of (get "nonce" (normalize_string_array c))) s.upstream_nonce,
    h,
    ne,
  ),
)

nonce_checked :
    (u : UpstreamProvider) (tok : Token) (s : LoginSession) (base : Claims)
    → (tok.id_token == "") ≡ false
    → id_claims_of u tok s ≡ passed base
    → check_nonce s (u.parse_and_verify_id_token tok.id_token) ≡ passed base
unfolding id_claims_of
nonce_checked u tok s base t h = ground (arith, t, h)

id_claims_of-Vouched :
    (u : UpstreamProvider) (tok : Token) (s : LoginSession) (base : Claims)
    → id_claims_of u tok s ≡ passed base
    → Vouched u tok s
unfolding id_claims_of
id_claims_of-Vouched u tok s base h = elim (Bool-cases (tok.id_token == "")) [
  | inl t ↦ record { verified = λ ne. ground (arith, eq_iff tok.id_token "", t, ne) }
  | inr t ↦ record {
    verified = λ ne.
        check_nonce_inv s (u.parse_and_verify_id_token tok.id_token) base
          (nonce_checked u tok s base t h);
  }
]

exchanged_inv : (r : Result Token) (tok : Token) → exchanged r ≡ passed tok → r ≡ ok tok
unfolding exchanged
exchanged_inv (ok t) tok h = cc
exchanged_inv (err e) tok h = cc

exchange_code_inv :
    (o : Option (String → Option String → Result Token)) (q : CallbackRequest) (s : LoginSession)
    (tok : Token)
    → exchange_code o q s ≡ passed tok
    → (exchange : String → Option String → Result Token) × (o ≡ some exchange)
      × (exchange q.code (verifier_of s) ≡ ok tok)
unfolding exchange_code
exchange_code_inv none q s tok h = cc
exchange_code_inv (some exchange) q s tok h =
    (exchange, refl, exchanged_inv (exchange q.code (verifier_of s)) tok h)

known_upstream_inv :
    (o : Option UpstreamProvider) (u : UpstreamProvider) → known_upstream o ≡ passed u → o ≡ some u
unfolding known_upstream
known_upstream_inv none u h = cc
known_upstream_inv (some v) u h = cc

-- The upstream that the session was sent to has vouched for the user.
pub record Verified (server : Server) (q : CallbackRequest) (s : LoginSession) : Type 0 where
  pub of_session : OfSession q s
  pub upstream : UpstreamProvider
  pub is_known : server.find_upstream s.upstream_provider ≡ some upstream
  pub exchange : String → Option String → Result Token
  pub is_configured : upstream.exchange ≡ some exchange
  pub token : Token
  pub is_exchanged : exchange q.code (verifier_of s) ≡ ok token
  pub is_vouched : Vouched upstream token s

pub check-Verified :
    (server : Server) (q : CallbackRequest) (s : LoginSession) (b : UpstreamProvider × Claims)
    → check server q s ≡ passed b
    → Verified server q s
unfolding check
check-Verified server q s b h =
    let (_, e1, h1) = and_then_inv (check_request q s) _ b h in
    let (u, e2, h2) =
      and_then_inv (known_upstream (server.find_upstream s.upstream_provider)) _ b h1 in
    let (tok, e3, h3) = and_then_inv (exchange_code u.exchange q s) _ b h2 in
    let (base, e4, h4) = and_then_inv (id_claims_of u tok s) _ b h3 in
    let ex = exchange_code_inv u.exchange q s tok e3 in
    record {
      of_session = check_request-OfSession q s e1;
      upstream = u;
      is_known = known_upstream_inv (server.find_upstream s.upstream_provider) u e2;
      exchange = ex.0;
      is_configured = ex.1;
      token = tok;
      is_exchanged = ex.2;
      is_vouched = id_claims_of-Vouched u tok s base e4;
    }
