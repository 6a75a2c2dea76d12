-- ===== src/Auth/Service.antt =====
-- class JWTAuthService in src/app/auth/service.py. PyJWT is a parameter: keys, `get_unverified_header`, the key of
-- a JWK and `decode`, which the code relies on to refuse a token that lacks a required claim.
use fastapi_chassis.Base.{
  ℕ, String, ◌≡◌, Bool, true, false, not, Option, none, some, List, [], ◌∷◌, any, ◌==◌, All,
  if◌then◌else◌,
}
use fastapi_chassis.Base.Text.{is_true, starts}
use fastapi_chassis.Base.Dict.{Dict, lookup, has}
use fastapi_chassis.Outcome.{
  Outcome, returned, raised, Exn, authentication_error, invalid_token, other_error, next, ◌>>=◌,
}
use fastapi_chassis.Settings.Fields.{AuthFields}
use fastapi_chassis.Starlette.{Json}
use fastapi_chassis.Auth.Claims.{
  Principal, Printing, normalize_audience, normalize_scopes, normalize_roles, claim_as_optional_str,
  or_value,
}
use fastapi_chassis.Auth.Jwks.{Jwk, Jwks, JwksState, Fetch, fetch_jwks}

-- the arguments of `jwt.decode` after the token and the key
pub record DecodeOptions : Type 0 where
  pub algorithms : List String
  pub audience : Option String
  pub issuer : Option String
  pub leeway : ℕ
  pub require : List String
  pub verify_aud : Bool
  pub verify_iss : Bool

pub record JwtLibrary : Type 1 where
  pub Data : Type 0
  pub Key : Type 0
  pub text_key : String → Key
  pub unverified_kid : String → Outcome (Option String)
  pub key_from_dict : Data → Outcome Key
  pub decode : String → Key → DecodeOptions → Outcome (Dict Json)
  pub decode_require :
      (token : String) (key : Key) (o : DecodeOptions) (claims : Dict Json)
      → decode token key o ≡ returned claims
      → All (λ c. has c claims ≡ true) o.require

-- `s or None`
abbrev pub or_none : String → Option String
or_none s = if is_true s then some s else none

unfoldable pub uses_shared_secret : AuthFields → Bool
uses_shared_secret cfg = any (starts "HS") cfg.auth_jwt_algorithms

unfoldable pub required_claims : AuthFields → List String
required_claims cfg = "sub" ∷ (if cfg.auth_require_exp then "exp" ∷ [] else [])

unfoldable pub decode_options : AuthFields → DecodeOptions
unfolding required_claims
decode_options cfg = record {
  algorithms = cfg.auth_jwt_algorithms;
  audience = or_none cfg.auth_jwt_audience;
  issuer = or_none cfg.auth_jwt_issuer;
  leeway = cfg.auth_clock_skew_seconds;
  require = required_claims cfg;
  verify_aud = is_true cfg.auth_jwt_audience;
  verify_iss = is_true cfg.auth_jwt_issuer;
}

-- `claims["sub"]`, which raises KeyError if it is missing
abbrev pub with_subject : Printing → Dict Json → Option Json → Outcome Principal
with_subject p claims none = raised (other_error "'sub'")
with_subject p claims (some sub) = normalize_roles p (lookup "roles" claims) >>= λ roles.
    returned (record {
      subject = p.str sub;
      issuer = claim_as_optional_str p (lookup "iss" claims);
      audience = normalize_audience p (lookup "aud" claims);
      scopes = normalize_scopes p (or_value (lookup "scope" claims) (lookup "scp" claims));
      roles = roles;
      claims = claims;
    })

-- `return Principal(...)`
unfoldable pub to_principal : Printing → Dict Json → Outcome Principal
to_principal p claims = with_subject p claims (lookup "sub" claims)

-- the `except` clauses of `authenticate_token`
abbrev pub authentication_failure : Exn → Exn
authentication_failure (invalid_token e) = authentication_error "Token validation failed"
authentication_failure e = authentication_error "Token authentication failed"

module _ (jwt : JwtLibrary) (cfg : AuthFields) where
  open jwt use {Data, Key, text_key, unverified_kid, key_from_dict, decode}

  abbrev pub some_key : Outcome Key → Outcome (Option Key)
  some_key (returned k) = returned (some k)
  some_key (raised e) = raised e

  -- `jwk_data.get("kid") == kid`
  abbrev pub has_kid : String → Option String → Bool
  has_kid kid none = false
  has_kid kid (some k) = k == kid

  unfoldable pub find_key : String → List (Jwk Data) → Outcome (Option Key)
  find_key kid [] = returned none
  find_key kid (k ∷ ks) =
      let rest = find_key kid ks in
      if has_kid kid k.kid then some_key (key_from_dict k.jwk_data) else rest

  abbrev pub listed : Option (List (Jwk Data)) → List (Jwk Data)
  listed none = []
  listed (some ks) = ks

  unfoldable pub get_jwk_key_for_kid : Jwks Data → String → Outcome (Option Key)
  unfolding find_key
  get_jwk_key_for_kid jwks kid = find_key kid (listed jwks.keys)

  -- a key that was found, or what is done if there is none
  abbrev pub found_or :
      Outcome (Option Key)
      → (JwksState Data → JwksState Data × Outcome Key)
      → JwksState Data
      → JwksState Data × Outcome Key
  found_or (raised e) otherwise s = (s, raised e)
  found_or (returned (some key)) otherwise s = (s, returned key)
  found_or (returned none) otherwise s = otherwise s

  unfoldable pub no_match : JwksState Data → JwksState Data × Outcome Key
  no_match s = (s, raised (authentication_error "No matching signing key found"))

  -- the second fetch, on a miss
  unfoldable pub refreshed_key : String → Fetch Data → JwksState Data → JwksState Data × Outcome Key
  unfolding get_jwk_key_for_kid no_match
  refreshed_key kid second s =
      next (fetch_jwks cfg true second s)
        (λ jwks t. found_or (get_jwk_key_for_kid jwks kid) no_match t)

  unfoldable pub key_for_kid :
      String → Fetch Data → Fetch Data → JwksState Data → JwksState Data × Outcome Key
  unfolding refreshed_key get_jwk_key_for_kid
  key_for_kid kid first second s =
      next (fetch_jwks cfg false first s)
        (λ jwks t. found_or (get_jwk_key_for_kid jwks kid) (refreshed_key kid second) t)

  -- `kid = header.get("kid")` with `if not kid`
  abbrev pub with_kid :
      Outcome (Option String)
      → Fetch Data
      → Fetch Data
      → JwksState Data
      → JwksState Data × Outcome Key
  with_kid (raised e) first second s = (s, raised e)
  with_kid (returned none) first second s =
      (s, raised (authentication_error "JWT is missing kid header required for JWKS"))
  with_kid (returned (some kid)) first second s =
      if is_true kid
      then key_for_kid kid first second s
      else (s, raised (authentication_error "JWT is missing kid header required for JWKS"))

  -- The two fetches are what the one or two calls of `_fetch_jwks` meet.
  unfoldable pub resolve_key :
      String → Fetch Data → Fetch Data → JwksState Data → JwksState Data × Outcome Key
  unfolding key_for_kid uses_shared_secret
  resolve_key token first second s =
      if is_true cfg.auth_jwks_url
      then with_kid (unverified_kid token) first second s
      else if is_true cfg.auth_jwt_public_key
      then (s, returned (text_key cfg.auth_jwt_public_key))
      else if uses_shared_secret cfg
      then (s, returned (text_key cfg.auth_jwt_secret))
      else (
        s,
        raised (authentication_error "JWT validation is enabled but no key material is configured"),
      )

  module _ (p : Printing) where
    -- the `try` statement and what follows it, on the key
    abbrev pub decoded : JwksState Data → Outcome (Dict Json) → JwksState Data × Outcome Principal
    decoded s (raised e) = (s, raised (authentication_failure e))
    decoded s (returned claims) = (s, to_principal p claims)

    abbrev pub with_key : String → JwksState Data × Outcome Key → JwksState Data × Outcome Principal
    with_key token (s, raised e) = (s, raised (authentication_failure e))
    with_key token (s, returned key) = decoded s (decode token key (decode_options cfg))

    unfoldable pub authenticate_token :
        String → Fetch Data → Fetch Data → JwksState Data → JwksState Data × Outcome Principal
    unfolding resolve_key decode_options to_principal
    authenticate_token token first second s =
        if not cfg.auth_enabled
        then (s, raised (authentication_error "Authentication is disabled"))
        else with_key token (resolve_key token first second s)
