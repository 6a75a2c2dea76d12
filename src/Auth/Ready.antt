-- ===== src/Auth/Ready.antt =====
-- `readiness_check` and `warm_up` of class JWTAuthService in src/app/auth/service.py.
use Prim.Native.String.{◌++◌}
use fastapi_chassis.Base.{true, false, not, ◌&&◌, none, if◌then◌else◌}
use fastapi_chassis.Base.Text.{is_true}
use fastapi_chassis.Outcome.{Outcome, returned, raised}
use fastapi_chassis.Settings.Fields.{AuthFields}
use fastapi_chassis.Readiness.{ReadinessCheckResult, ok, error}
use fastapi_chassis.Readiness.Probes.{exn_text}
use fastapi_chassis.Auth.Jwks.{Jwks, JwksState, Fetch, fetch_jwks}
use fastapi_chassis.Auth.Service.{JwtLibrary, uses_shared_secret}

module _ (jwt : JwtLibrary) (cfg : AuthFields) where
  open jwt use {Data}

  -- the answer after `_fetch_jwks`
  abbrev pub jwks_readiness :
      JwksState Data × Outcome (Jwks Data) → JwksState Data × Outcome ReadinessCheckResult
  jwks_readiness (s, raised e) =
      (s, returned (error "auth" ("JWKS unavailable: " ++ exn_text e) none))
  jwks_readiness (s, returned _) = (
    s,
    returned (
        ok "auth"
          (if s.jwks_last_fetch_used_stale_cache
            then "Using stale JWKS cache after refresh failure"
            else "JWKS available")
          none),
  )

  unfoldable pub auth_readiness :
      Fetch Data → JwksState Data → JwksState Data × Outcome ReadinessCheckResult
  unfolding uses_shared_secret
  auth_readiness f s =
      if not cfg.auth_enabled
      then (s, returned (ok "auth" "Authentication disabled" none))
      else if is_true cfg.auth_jwks_url
      then jwks_readiness (fetch_jwks cfg false f s)
      else if is_true cfg.auth_jwt_public_key
      then (s, returned (ok "auth" "Static public key configured" none))
      else if uses_shared_secret cfg
      then (s, returned (ok "auth" "Shared-secret JWT validation configured" none))
      else (s, returned (error "auth" "No JWT verification material configured" none))

  abbrev pub primed : JwksState Data × Outcome (Jwks Data) → JwksState Data × Outcome (Unit {0})
  primed (s, raised e) = (s, raised e)
  primed (s, returned _) = (s, returned tt)

  unfoldable pub warm_up : Fetch Data → JwksState Data → JwksState Data × Outcome (Unit {0})
  warm_up f s =
      if cfg.auth_enabled && is_true cfg.auth_jwks_url
      then primed (fetch_jwks cfg true f s)
      else (s, returned tt)
