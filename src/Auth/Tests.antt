-- ===== src/Auth/Tests.antt =====
-- Runs of the authentication, and its theorems at concrete inputs: an old key set with the key "k1", and
-- a new one that has "k2" as well.
use fastapi_chassis.Base.{ℕ, String, ◌≡◌, refl, arith, ◌↔◌, ◌⊎◌, true, false, none, some, [], ◌∷◌}
use fastapi_chassis.Base.Text.{is_true, starts, split_on}
use fastapi_chassis.Base.Dict.{lookup}
use fastapi_chassis.Outcome.{Outcome, returned, raised, http_exception, timeout_error, ◌>>=◌}
use fastapi_chassis.Fixtures.Configuration.{accepted}
use fastapi_chassis.Fixtures.Tokens.{jwt_library, printing}
use fastapi_chassis.Settings.Fields.{AuthFields}
use fastapi_chassis.Settings.Defaults.{auth_defaults}
use fastapi_chassis.Auth.Claims.{Principal, normalize_scopes, normalize_roles}
use fastapi_chassis.Auth.Jwks.{
  Jwk, Jwks, JwksState, Fetch, init, fetch_jwks, validate_jwks_payload, store_answer,
}
use fastapi_chassis.Auth.Freshness.{Good, IsValid, fetch_jwks-Good}
use fastapi_chassis.Auth.Refusal.{NoneStale, fetch_jwks-refuses}
use fastapi_chassis.Auth.Service.{resolve_key, authenticate_token, get_jwk_key_for_kid}
use fastapi_chassis.Auth.Rotation.{Serves, resolve_key-Serves}
use fastapi_chassis.Auth.Renewal.{resolve_key_rotated}
use fastapi_chassis.Auth.Dependencies.{
  authorize, require_scopes, require_roles, get_optional_principal, get_current_principal,
  join_names,
}
use fastapi_chassis.Auth.Access.{AllGranted, authorize-AllGranted}
use fastapi_chassis.Auth.Errors.{IsDenied, Escapes, authorize-authenticate_token}

abbrev entry : String → Jwk String
entry kid = record { kid = some kid; jwk_data = kid }

abbrev old_keys : Jwks String
old_keys = record { keys = some (entry "k1" ∷ []) }

abbrev new_keys : Jwks String
new_keys = record { keys = some (entry "k1" ∷ entry "k2" ∷ []) }

abbrev by_url : AuthFields
by_url = record auth_defaults {
  auth_enabled = true;
  auth_jwt_algorithms = "RS256" ∷ [];
  auth_jwks_url = "https://issuer/keys";
}

-- A fetch at a reading of the clock.
abbrev fetch_at : ℕ → Outcome (Jwks String) → Fetch String
fetch_at now answer = record {
  on_entry = now;
  meanwhile = λ s. s;
  on_lock = now;
  answer = answer;
  on_answer = now;
}

abbrev loaded : JwksState String
loaded = record {
  jwks_cache = some old_keys;
  jwks_loaded_at = 1000;
  jwks_last_fetch_used_stale_cache = false;
}

abbrev outage : Fetch String
outage = fetch_at 2000 (raised timeout_error)

abbrev loaded_stale : JwksState String
loaded_stale = record loaded { jwks_last_fetch_used_stale_cache = true }

stale_keys : fetch_jwks by_url false outage loaded ≡ (loaded_stale, returned old_keys)
unfolding fetch_jwks
stale_keys = refl

fetch_jwks-Good_example : Good by_url outage loaded_stale old_keys
fetch_jwks-Good_example =
    fetch_jwks-Good by_url outage false loaded loaded_stale old_keys stale_keys

abbrev long_outage : Fetch String
long_outage = fetch_at 5000 (raised timeout_error)

too_old : fetch_jwks by_url false long_outage loaded ≡ (loaded, raised timeout_error)
unfolding fetch_jwks
too_old = refl

fetch_jwks-refuses_example :
    ((long_outage.answer >>= validate_jwks_payload) ≡ raised timeout_error)
    × NoneStale by_url 5000 loaded
fetch_jwks-refuses_example =
    fetch_jwks-refuses by_url long_outage false loaded loaded timeout_error too_old

empty-IsValid : IsValid (init {Data = String})
empty-IsValid payload h = ground arith

abbrev renewed : JwksState String
renewed = record {
  jwks_cache = some new_keys;
  jwks_loaded_at = 1101;
  jwks_last_fetch_used_stale_cache = false;
}

first_keys :
    fetch_jwks by_url false (fetch_at 1100 (raised timeout_error)) loaded
    ≡ (loaded, returned old_keys)
unfolding fetch_jwks
first_keys = refl

not_found : get_jwk_key_for_kid jwt_library by_url old_keys "k2" ≡ returned none
unfolding get_jwk_key_for_kid
not_found = refl

found : get_jwk_key_for_kid jwt_library by_url new_keys "k2" ≡ returned (some "k2")
unfolding get_jwk_key_for_kid
found = refl

stored : store_answer (fetch_at 1101 (returned new_keys)) loaded new_keys ≡ renewed
unfolding store_answer
stored = refl

resolve_key_rotated_example :
    resolve_key jwt_library by_url "k2"
      (fetch_at 1100 (raised timeout_error))
      (fetch_at 1101 (returned new_keys))
      loaded
    ≡ (store_answer (fetch_at 1101 (returned new_keys)) loaded new_keys, returned "k2")
resolve_key_rotated_example =
    resolve_key_rotated jwt_library by_url "k2" "k2" (fetch_at 1100 (raised timeout_error))
      (fetch_at 1101 (returned new_keys)) loaded loaded old_keys new_keys "k2" refl refl refl
      first_keys not_found refl (entry "k1", (entry "k2" ∷ []), refl) found

known :
    resolve_key jwt_library by_url "k1"
      (fetch_at 1100 (raised timeout_error))
      (fetch_at 1101 (raised timeout_error))
      loaded
    ≡ (loaded, returned "k1")
unfolding resolve_key fetch_jwks get_jwk_key_for_kid
known = refl

resolve_key-Serves_example :
    (kid : String) × (jwt_library.unverified_kid "k1" ≡ returned (some kid))
    × (is_true kid ≡ true)
    × Serves jwt_library by_url kid loaded "k1"
resolve_key-Serves_example =
    resolve_key-Serves jwt_library by_url "k1" (fetch_at 1100 (raised timeout_error))
      (fetch_at 1101 (raised timeout_error)) loaded loaded "k1" refl known

abbrev alice : Outcome Principal
alice = (authenticate_token jwt_library accepted.auth printing "t" outage outage init).1

denied :
    authorize (require_scopes ("admin" ∷ [])) (some alice)
    ≡ raised (http_exception 403 "Missing required scopes: admin" [])
unfolding authorize authenticate_token get_optional_principal starts lookup get_current_principal
    require_scopes normalize_scopes normalize_roles split_on join_names
denied = refl

authorize-authenticate_token_example :
    IsDenied jwt_library accepted.auth printing "t"
      (http_exception 403 "Missing required scopes: admin" [])
    ⊎ Escapes jwt_library accepted.auth printing "t"
        (http_exception 403 "Missing required scopes: admin" [])
authorize-authenticate_token_example =
    authorize-authenticate_token jwt_library accepted.auth printing "t" ("admin" ∷ []) outage outage
      init _ denied

abbrev reader : Principal
reader = record {
  subject = "alice";
  issuer = none;
  audience = [];
  scopes = "reports:read" ∷ [];
  roles = [];
  claims = [];
}

authorize-AllGranted_example :
    ((authorize (require_scopes ("reports:read" ∷ [])) (some (returned reader)) ≡ returned reader)
      ↔ ((some (returned reader) ≡ some (returned reader))
          × AllGranted ("reports:read" ∷ []) ("reports:read" ∷ [])))
    × ((authorize (require_roles ("reports:read" ∷ [])) (some (returned reader)) ≡ returned reader)
        ↔ ((some (returned reader) ≡ some (returned reader)) × AllGranted ("reports:read" ∷ []) []))
authorize-AllGranted_example =
    authorize-AllGranted ("reports:read" ∷ []) (some (returned reader)) reader
