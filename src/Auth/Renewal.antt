-- ===== src/Auth/Renewal.antt =====
-- Key rotation in src/app/auth/service.py: a "kid" that the cached keys lack is looked up once more after a
-- forced fetch. And the keys of settings that were accepted.
use Prim.Native.String.{count}
use fastapi_chassis.Base.{String, ◌≡◌, refl, ap, ◌∙◌, ◌≤◌, ◌⊎◌, true, false, none, some}
use fastapi_chassis.Base.Text.{is_true, starts}
use fastapi_chassis.Outcome.{Outcome, returned, ◌>>=◌}
use fastapi_chassis.Settings.Fields.{Settings, AuthFields}
use fastapi_chassis.Auth.Jwks.{
  Jwks, JwksState, Fetch, with_keys, validate_jwks_payload, fetch_jwks, fetch_locked, refresh,
  usable, store_answer, received,
}
use fastapi_chassis.Auth.Freshness.{HasKeys}
use fastapi_chassis.Auth.Rotation.{Serves}
use fastapi_chassis.Auth.Service.{
  JwtLibrary, uses_shared_secret, get_jwk_key_for_kid, refreshed_key, key_for_kid, resolve_key,
}

module _ {Data : Type 0} (cfg : AuthFields) (f : Fetch Data) where
  valid_lem :
      (payload : Jwks Data) → HasKeys payload → validate_jwks_payload payload ≡ returned payload
  unfolding validate_jwks_payload
  valid_lem payload (k, ks, e) = ap (with_keys payload) e

  fetch_forced :
      (s : JwksState Data) (payload : Jwks Data)
      → f.answer ≡ returned payload
      → HasKeys payload
      → fetch_jwks cfg true f s ≡ (store_answer f (f.meanwhile s) payload, returned payload)
  unfolding fetch_jwks fetch_locked refresh usable
  fetch_forced s payload a h =
      ap (λ o. received cfg f (f.meanwhile s) (o >>= validate_jwks_payload)) a
      ∙ ap (received cfg f (f.meanwhile s)) (valid_lem payload h)

module _ (jwt : JwtLibrary) (cfg : AuthFields) where
  open jwt use {Data, Key, text_key, unverified_kid}

  -- Under a URL of keys, a token with a "kid" that is not empty and that the first fetch has no key
  -- for gets its key if the second fetch receives a key set that has it: the key is found without
  -- waiting for the cached keys to expire.
  pub resolve_key_rotated :
      (token kid : String) (first second : Fetch Data) (s u : JwksState Data) (old new : Jwks Data)
      (key : Key)
      → is_true cfg.auth_jwks_url ≡ true
      → unverified_kid token ≡ returned (some kid)
      → is_true kid ≡ true
      → fetch_jwks cfg false first s ≡ (u, returned old)
      → get_jwk_key_for_kid jwt cfg old kid ≡ returned none
      → second.answer ≡ returned new
      → HasKeys new
      → get_jwk_key_for_kid jwt cfg new kid ≡ returned (some key)
      → resolve_key jwt cfg token first second s
        ≡ (store_answer second (second.meanwhile u) new, returned key)
  unfolding resolve_key key_for_kid refreshed_key
  resolve_key_rotated token kid first second s u old new key h1 h2 h3 h4 h5 h6 h7 h8 =
      rw (h1, h2, h3, h4, h5, fetch_forced cfg second u new h6 h7, h8) refl

-- What `resolve_key` checks a token against: a key that the cached set from an https URL gives for the "kid" in the
-- token's header, or the public key, or, with HS algorithms, the shared secret of 32 characters or more.
abbrev pub Material :
    (jwt : JwtLibrary)
    → AuthFields
    → String
    → JwksState jwt.Data
    → JwksState jwt.Data × Outcome jwt.Key
    → Type 0
Material jwt cfg token s outcome =
    ((is_true cfg.auth_jwks_url ≡ true)
      × (starts "https://" cfg.auth_jwks_url ≡ true)
      × (uses_shared_secret cfg ≡ false)
      × ((t : JwksState jwt.Data) (key : jwt.Key)
          → outcome ≡ (t, returned key)
          → (kid : String) × (jwt.unverified_kid token ≡ returned (some kid))
            × (is_true kid ≡ true)
            × Serves jwt cfg kid t key))
    ⊎ (((is_true cfg.auth_jwt_public_key ≡ true)
          × (uses_shared_secret cfg ≡ false)
          × (outcome ≡ (s, returned (jwt.text_key cfg.auth_jwt_public_key))))
        ⊎ ((32 ≤ count cfg.auth_jwt_secret)
            × (uses_shared_secret cfg ≡ true)
            × (outcome ≡ (s, returned (jwt.text_key cfg.auth_jwt_secret)))))
