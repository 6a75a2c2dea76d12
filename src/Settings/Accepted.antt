-- ===== src/Settings/Accepted.antt =====
-- What settings that pass the validators of src/app/settings.py guarantee.
use fastapi_chassis.Base.{
  String, Bool, true, false, ◌&&◌, some, List, [], ◌∷◌, eq_iff, ◌≡◌, inl, inr, eqb, is_in, length,
  arith, Option-cases, ◌≢◌, ap, All, sym, ◌∙◌, sym, ◌∙◌,
}
use fastapi_chassis.Base.Text.{is_true, starts}
use fastapi_chassis.Proxy.{IpAddresses}
use fastapi_chassis.Settings.Result.{ok, raise_if-eq-ok, >>=-eq-ok, ok-injective}
use fastapi_chassis.Settings.Fields.{
  Settings, CorsFields, HealthFields, RateLimitFields, HardeningFields,
}
use fastapi_chassis.Settings.Validate.{
  validate_auth_settings, valid_networks, validate_trusted_proxy_list, validate_proxy_settings,
  validate_cors_credentials, validate_health_paths, check_all, resolve_paths_and_defaults, resolve,
}
use fastapi_chassis.Settings.KeyMaterial.{
  IsSound, validate_auth_settings-IsSound, validate_auth_settings-https,
}

validate_cors_credentials_lem :
    (c : CorsFields)
    → validate_cors_credentials c ≡ ok tt
    → (c.cors_allow_credentials && is_in "*" c.cors_allowed_origins) ≡ false
unfolding validate_cors_credentials
validate_cors_credentials_lem c h = ground arith

validate_health_paths_lem :
    (p : HealthFields)
    → validate_health_paths p ≡ ok tt
    → p.health_check_path ≢ p.readiness_check_path
unfolding validate_health_paths
validate_health_paths_lem p h e = ground (arith, eq_iff p.health_check_path p.readiness_check_path)

-- If the headers of proxies are trusted there are networks of proxies, and all networks are valid.
abbrev pub IsProxyListSound : IpAddresses → Bool → List String → Type 0
IsProxyListSound ip trust_enabled proxies =
    (trust_enabled ≡ true → length proxies ≢ 0)
    × All (λ proxy. (n : ip.Network) × (ip.ip_network proxy ≡ some n)) proxies

module _ (ip : IpAddresses) where
  valid_networks_lem :
      (name : String) (proxies : List String)
      → valid_networks ip name proxies ≡ ok tt
      → All (λ proxy. (n : ip.Network) × (ip.ip_network proxy ≡ some n)) proxies
  unfolding valid_networks
  valid_networks_lem name [] h = tt
  valid_networks_lem name (proxy ∷ proxies) h = elim (Option-cases (ip.ip_network proxy)) [
    | inl e ↦ ground arith
    | inr (n, e) ↦ ((n, e), valid_networks_lem name proxies (ground arith))
  ]

  validate_trusted_proxy_list_lem :
      (trust_enabled : Bool) (proxies : List String) (name toggle : String)
      → validate_trusted_proxy_list ip trust_enabled proxies name toggle ≡ ok tt
      → IsProxyListSound ip trust_enabled proxies
  unfolding validate_trusted_proxy_list
  validate_trusted_proxy_list_lem trust_enabled proxies name toggle h =
      let (e, k) = raise_if-eq-ok (trust_enabled && eqb (length proxies) 0) _ _ h in
      ((λ t. ground arith), valid_networks_lem name proxies k)

  validate_proxy_settings_lem :
      (r : RateLimitFields) (h : HardeningFields)
      → validate_proxy_settings ip r h ≡ ok tt
      → IsProxyListSound ip r.rate_limit_trust_proxy_headers r.rate_limit_trusted_proxies
        × IsProxyListSound ip h.security_trust_proxy_proto_header h.security_trusted_proxies
  unfolding validate_proxy_settings
  validate_proxy_settings_lem r h e =
      let (_, e1, e2) =
        >>=-eq-ok
          (validate_trusted_proxy_list ip r.rate_limit_trust_proxy_headers
            r.rate_limit_trusted_proxies "APP_RATE_LIMIT_TRUSTED_PROXIES"
            "APP_RATE_LIMIT_TRUST_PROXY_HEADERS")
          (λ _.
            validate_trusted_proxy_list ip h.security_trust_proxy_proto_header
              h.security_trusted_proxies "APP_SECURITY_TRUSTED_PROXIES"
              "APP_SECURITY_TRUST_PROXY_PROTO_HEADER")
          e in
      (
        validate_trusted_proxy_list_lem r.rate_limit_trust_proxy_headers
            r.rate_limit_trusted_proxies "APP_RATE_LIMIT_TRUSTED_PROXIES"
            "APP_RATE_LIMIT_TRUST_PROXY_HEADERS" e1,
        validate_trusted_proxy_list_lem h.security_trust_proxy_proto_header
            h.security_trusted_proxies "APP_SECURITY_TRUSTED_PROXIES"
            "APP_SECURITY_TRUST_PROXY_PROTO_HEADER" e2,
      )

  -- What the settings promise to the program once they are accepted.
  abbrev pub IsAccepted : Settings → Type 0
  IsAccepted s =
      (s.auth_enabled ≡ true → IsSound s.auth)
      × (is_true s.auth_jwks_url ≡ true → starts "https://" s.auth_jwks_url ≡ true)
      × IsProxyListSound ip s.rate_limit_trust_proxy_headers s.rate_limit_trusted_proxies
      × IsProxyListSound ip s.security_trust_proxy_proto_header s.security_trusted_proxies
      × ((s.cors_allow_credentials && is_in "*" s.cors_allowed_origins) ≡ false)
      × (s.health_check_path ≢ s.readiness_check_path)

  check_all-IsAccepted : (s : Settings) → check_all ip s ≡ ok tt → IsAccepted s
  unfolding check_all
  check_all-IsAccepted s h =
      let (_, ha, k) = >>=-eq-ok (validate_auth_settings s.auth) _ h in
      let (_, hp, k) = >>=-eq-ok (validate_proxy_settings ip s.rate_limiting s.hardening) _ k in
      let (_, hc, hh) = >>=-eq-ok (validate_cors_credentials s.cors) _ k in
      let (p, q) = validate_proxy_settings_lem s.rate_limiting s.hardening hp in
      (
        validate_auth_settings-IsSound s.auth ha,
        validate_auth_settings-https s.auth ha,
        p,
        q,
        validate_cors_credentials_lem s.cors hc,
        validate_health_paths_lem s.health hh,
      )

  -- Settings that the model validator returns are sound: with authentication on, HS algorithms
  -- have a secret of 32 characters or more and no other key, other algorithms a public key or an
  -- https URL and no secret, and a required issuer or audience is there; a URL of keys is https;
  -- trusted proxy headers have proxy networks, which all parse; credentials do not go with the
  -- origin "*"; and the two health paths differ.
  pub resolve_paths_and_defaults-IsAccepted :
      (bundled : String) (s t : Settings)
      → resolve_paths_and_defaults ip bundled s ≡ ok t
      → IsAccepted t
  unfolding resolve_paths_and_defaults
  resolve_paths_and_defaults-IsAccepted bundled s t h =
      let (u, hr, k) = >>=-eq-ok (resolve bundled s) _ h in
      let (_, hc, e) = >>=-eq-ok (check_all ip u) _ k in
      check_all-IsAccepted t (ap (check_all ip) (sym (ok-injective e)) ∙ hc)
