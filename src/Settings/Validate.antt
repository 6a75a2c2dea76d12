-- ===== src/Settings/Validate.antt =====
-- The validators of src/app/settings.py, and the model validator that runs all. `ip_network` is that of
-- the address library.
use Prim.Native.String.{◌++◌, count}
use fastapi_chassis.Base.{
  String, Bool, true, false, not, ◌&&◌, ◌||◌, Option, none, some, List, [], ◌∷◌, ◌==◌,
  if◌then◌else◌, ltb, eqb, is_in, length,
}
use fastapi_chassis.Base.Text.{is_true, starts}
use fastapi_chassis.Proxy.{IpAddresses}
use fastapi_chassis.Settings.Result.{Checked, ok, value_error, ◌>>=◌, ◌>>◌, raise_if}
use fastapi_chassis.Settings.Fields.{
  Settings, AuthFields, CorsFields, HealthFields, RateLimitFields, HardeningFields,
}
use fastapi_chassis.Settings.Resolve.{
  resolve_logging_defaults, resolve_database_defaults, resolve_otel_defaults,
  resolve_rate_limit_storage_defaults, resolve_cache_storage_defaults, resolve_csp_for_docs,
}

-- `for family in families: if algorithm.startswith(family): return family`
unfoldable pub family_among : List String → String → Checked String
family_among [] algorithm = value_error ("Unsupported JWT algorithm family for " ++ algorithm)
family_among (family ∷ families) algorithm =
    let rest = family_among families algorithm in
    if starts family algorithm then ok family else rest

unfoldable pub jwt_algorithm_family : String → Checked String
unfolding family_among
jwt_algorithm_family = family_among ("HS" ∷ "RS" ∷ "ES" ∷ "PS" ∷ "EdDSA" ∷ [])

-- the set of the families, as a list with no family twice
unfoldable pub algorithm_families : List String → Checked (List String)
unfolding jwt_algorithm_family
algorithm_families [] = ok []
algorithm_families (a ∷ as') = do
  family ← jwt_algorithm_family a
  families ← algorithm_families as'
  ok (if is_in family families then families else family ∷ families)

unfoldable pub validate_auth_key_material : AuthFields → Bool → Checked (Unit {0})
validate_auth_key_material a uses_shared_secret = do
  raise_if (uses_shared_secret && ltb (count a.auth_jwt_secret) 32)
      "auth_jwt_secret must be at least 32 characters when HS* algorithms are enabled"
  raise_if (uses_shared_secret && (is_true a.auth_jwt_public_key || is_true a.auth_jwks_url))
      "HS* algorithms cannot be combined with APP_AUTH_JWT_PUBLIC_KEY or APP_AUTH_JWKS_URL"
  raise_if (not uses_shared_secret && is_true a.auth_jwt_secret)
      "APP_AUTH_JWT_SECRET cannot be set with asymmetric JWT algorithms"
  raise_if
      (not (
        is_true a.auth_jwks_url
        || is_true a.auth_jwt_public_key
        || (is_true a.auth_jwt_secret && uses_shared_secret)))
      "Authentication is enabled but no JWT verification material is configured"

unfoldable pub validate_auth_claim_requirements : AuthFields → Checked (Unit {0})
validate_auth_claim_requirements a = do
  raise_if (a.auth_require_issuer && not (is_true a.auth_jwt_issuer))
      "APP_AUTH_JWT_ISSUER must be set when authentication is enabled"
  raise_if (a.auth_require_audience && not (is_true a.auth_jwt_audience))
      "APP_AUTH_JWT_AUDIENCE must be set when authentication is enabled"

-- the part of `_validate_auth_settings` that runs if authentication is enabled
unfoldable pub validate_enabled_auth : AuthFields → Checked (Unit {0})
unfolding algorithm_families validate_auth_key_material validate_auth_claim_requirements
validate_enabled_auth a = do
  families ← algorithm_families a.auth_jwt_algorithms
  raise_if (not (eqb (length families) 1))
      "APP_AUTH_JWT_ALGORITHMS must all belong to the same algorithm family"
  validate_auth_key_material a (is_in "HS" families)
  validate_auth_claim_requirements a

unfoldable pub validate_auth_settings : AuthFields → Checked (Unit {0})
validate_auth_settings a = do
  raise_if (is_true a.auth_jwks_url && not (starts "https://" a.auth_jwks_url))
      "APP_AUTH_JWKS_URL must use https://"
  if not a.auth_enabled then ok tt else validate_enabled_auth a

abbrev is_none {ℓ} : {A : Type ℓ} → Option A → Bool
is_none none = true
is_none (some _) = false

module _ (ip : IpAddresses) where
  unfoldable pub valid_networks : String → List String → Checked (Unit {0})
  valid_networks setting_name [] = ok tt
  valid_networks setting_name (proxy ∷ proxies) = do
    raise_if (is_none (ip.ip_network proxy))
        ("Invalid trusted proxy network in " ++ (setting_name ++ (": " ++ proxy)))
    valid_networks setting_name proxies

  unfoldable pub validate_trusted_proxy_list :
      Bool → List String → String → String → Checked (Unit {0})
  unfolding valid_networks
  validate_trusted_proxy_list trust_enabled proxies setting_name toggle_name = do
    raise_if (trust_enabled && eqb (length proxies) 0)
        (setting_name ++ (" must be set when " ++ (toggle_name ++ "=true")))
    valid_networks setting_name proxies

  unfoldable pub validate_proxy_settings : RateLimitFields → HardeningFields → Checked (Unit {0})
  unfolding validate_trusted_proxy_list
  validate_proxy_settings r h = do
    validate_trusted_proxy_list r.rate_limit_trust_proxy_headers r.rate_limit_trusted_proxies
        "APP_RATE_LIMIT_TRUSTED_PROXIES" "APP_RATE_LIMIT_TRUST_PROXY_HEADERS"
    validate_trusted_proxy_list h.security_trust_proxy_proto_header h.security_trusted_proxies
        "APP_SECURITY_TRUSTED_PROXIES" "APP_SECURITY_TRUST_PROXY_PROTO_HEADER"

unfoldable pub validate_cors_credentials : CorsFields → Checked (Unit {0})
validate_cors_credentials c =
    raise_if (c.cors_allow_credentials && is_in "*" c.cors_allowed_origins)
      "APP_CORS_ALLOWED_ORIGINS must not contain '*' when APP_CORS_ALLOW_CREDENTIALS=true (browsers ignore such responses)"

unfoldable pub validate_health_paths : HealthFields → Checked (Unit {0})
validate_health_paths h =
    raise_if (h.health_check_path == h.readiness_check_path)
      "APP_HEALTH_CHECK_PATH and APP_READINESS_CHECK_PATH must be different"

-- the resolvers of `_resolve_paths_and_defaults`, in their order
unfoldable pub resolve : String → Settings → Checked Settings
resolve bundled s = do
  let logging = resolve_logging_defaults bundled s.log
  db ← resolve_database_defaults s.database
  ok (record s {
    log = logging;
    database = db;
    telemetry = resolve_otel_defaults s.app s.telemetry;
    rate_limiting = resolve_rate_limit_storage_defaults s.rate_limiting;
    caching = resolve_cache_storage_defaults s.rate_limiting s.caching;
    hardening = resolve_csp_for_docs s.app s.hardening;
  })

-- the validators of `_resolve_paths_and_defaults`, in their order
unfoldable pub check_all : IpAddresses → Settings → Checked (Unit {0})
check_all ip s = do
  validate_auth_settings s.auth
  validate_proxy_settings ip s.rate_limiting s.hardening
  validate_cors_credentials s.cors
  validate_health_paths s.health

unfoldable pub resolve_paths_and_defaults : IpAddresses → String → Settings → Checked Settings
resolve_paths_and_defaults ip bundled s = do t ← resolve bundled s; check_all ip t; ok t
