-- ===== src/Auth/Jwks.antt =====
-- The cache of signing keys in src/app/auth/service.py: `_fetch_jwks` and its helpers. A key set is what the
-- code reads of the payload. The HTTP client and the readings of `monotonic` are an argument, with
-- what other tasks do to the state while this one waits for the lock: while it holds the lock they can
-- only take the unlocked path, which leaves the cached keys and their time as they are.
use fastapi_chassis.Base.{
  ℕ, String, ◌-◌, Bool, true, false, not, ◌&&◌, Option, none, some, List, [], ◌∷◌, ltb, leb,
  if◌then◌else◌,
}
use fastapi_chassis.Outcome.{Outcome, returned, raised, Exn, authentication_error, ◌>>=◌}
use fastapi_chassis.Settings.Fields.{AuthFields}

-- One entry of the keys: its "kid", with the rest of it as the JWT library sees it.
pub record Jwk (Data : Type 0) : Type 0 where
  pub kid : Option String
  pub jwk_data : Data

-- A payload: its "keys", or `none` if they are missing or no list.
pub record Jwks (Data : Type 0) : Type 0 where
  pub keys : Option (List (Jwk Data))

module _ (Data : Type 0) where
  -- `_jwks_cache`, `_jwks_loaded_at` and `_jwks_last_fetch_used_stale_cache`. Only validated payloads are
  -- cached, which are dictionaries with a key: a cached one is never falsy.
  pub record JwksState : Type 0 where
    pub jwks_cache : Option (Jwks Data)
    pub jwks_loaded_at : ℕ
    pub jwks_last_fetch_used_stale_cache : Bool

  -- What one call of `_fetch_jwks` meets: the clock on entry, what others do until the lock is taken, the
  -- clock then, the answer of the HTTP client or its exception, and the clock after it.
  pub record Fetch : Type 0 where
    pub on_entry : ℕ
    pub meanwhile : JwksState → JwksState
    pub on_lock : ℕ
    pub answer : Outcome (Jwks Data)
    pub on_answer : ℕ

module _ {Data : Type 0} where
  abbrev pub init : JwksState Data
  init = record { jwks_cache = none; jwks_loaded_at = 0; jwks_last_fetch_used_stale_cache = false }

  abbrev pub with_keys : Jwks Data → Option (List (Jwk Data)) → Outcome (Jwks Data)
  with_keys payload none =
      raised (authentication_error "JWKS payload does not contain any signing keys")
  with_keys payload (some []) =
      raised (authentication_error "JWKS payload does not contain any signing keys")
  with_keys payload (some (_ ∷ _)) = returned payload

  unfoldable pub validate_jwks_payload : Jwks Data → Outcome (Jwks Data)
  validate_jwks_payload payload = with_keys payload payload.keys

  unfoldable pub jwks_cache_expired : AuthFields → ℕ → JwksState Data → Bool
  jwks_cache_expired cfg now s = leb cfg.auth_jwks_cache_ttl_seconds (now - s.jwks_loaded_at)

  -- the keys that `if not force_refresh and self._jwks_cache and not self._jwks_cache_expired()` lets through
  unfoldable pub usable : AuthFields → Bool → ℕ → JwksState Data → Option (Jwks Data)
  unfolding jwks_cache_expired
  usable cfg force_refresh now s =
      if not force_refresh && not (jwks_cache_expired cfg now s) then s.jwks_cache else none

  unfoldable pub store_answer : Fetch Data → JwksState Data → Jwks Data → JwksState Data
  store_answer f s payload = record {
    jwks_cache = some payload;
    jwks_loaded_at = f.on_answer;
    jwks_last_fetch_used_stale_cache = false;
  }

  unfoldable pub stale : AuthFields → ℕ → JwksState Data → Option (Jwks Data)
  stale cfg now s =
      let max_stale = cfg.auth_jwks_max_stale_seconds in
      if ltb 0 max_stale && leb (now - s.jwks_loaded_at) max_stale then s.jwks_cache else none

  -- the `except` branch: the stale keys, or the exception again
  abbrev pub refused :
      JwksState Data → Exn → Option (Jwks Data) → JwksState Data × Outcome (Jwks Data)
  refused s e none = (s, raised e)
  refused s e (some keys) = (record s { jwks_last_fetch_used_stale_cache = true }, returned keys)

  -- the `try` statement, on the validated answer
  abbrev pub received :
      AuthFields
      → Fetch Data
      → JwksState Data
      → Outcome (Jwks Data)
      → JwksState Data × Outcome (Jwks Data)
  received cfg f s (returned payload) = (store_answer f s payload, returned payload)
  received cfg f s (raised e) = refused s e (stale cfg f.on_answer s)

  unfoldable pub refresh :
      AuthFields → Fetch Data → JwksState Data → JwksState Data × Outcome (Jwks Data)
  unfolding store_answer stale validate_jwks_payload
  refresh cfg f s = received cfg f s (f.answer >>= validate_jwks_payload)

  abbrev pub or_else_do :
      JwksState Data
      → Option (Jwks Data)
      → JwksState Data × Outcome (Jwks Data)
      → JwksState Data × Outcome (Jwks Data)
  or_else_do s none otherwise = otherwise
  or_else_do s (some keys) otherwise =
      (record s { jwks_last_fetch_used_stale_cache = false }, returned keys)

  -- what is done under the lock
  unfoldable pub fetch_locked :
      AuthFields → Bool → Fetch Data → JwksState Data → JwksState Data × Outcome (Jwks Data)
  unfolding usable refresh
  fetch_locked cfg force_refresh f s =
      or_else_do s (usable cfg force_refresh f.on_lock s) (refresh cfg f s)

  unfoldable pub fetch_jwks :
      AuthFields → Bool → Fetch Data → JwksState Data → JwksState Data × Outcome (Jwks Data)
  unfolding usable fetch_locked
  fetch_jwks cfg force_refresh f s =
      or_else_do s (usable cfg force_refresh f.on_entry s)
        (fetch_locked cfg force_refresh f (f.meanwhile s))
