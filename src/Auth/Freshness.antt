-- ===== src/Auth/Freshness.antt =====
-- Which keys `_fetch_jwks` of src/app/auth/service.py returns, and how old they are.
use fastapi_chassis.Base.{
  ℕ, ◌-◌, ◌≡◌, refl, sym, ap, Bool, true, false, Option, none, some, List, [], ◌∷◌, ◌<◌, ◌≤◌, ◌⊎◌,
  inl, inr, arith,
}
use fastapi_chassis.Outcome.{Outcome, returned, raised, Exn, ◌>>=◌, returned_subst}
use fastapi_chassis.Settings.Fields.{AuthFields}
use fastapi_chassis.Auth.Jwks.{
  Jwk, Jwks, JwksState, Fetch, with_keys, validate_jwks_payload, jwks_cache_expired, usable,
  store_answer, stale, refused, received, refresh, or_else_do, fetch_locked, fetch_jwks,
}

module _ {Data : Type 0} where
  -- A key set with at least one key.
  abbrev pub HasKeys : Jwks Data → Type 0
  HasKeys payload = (k : Jwk Data) × (ks : List (Jwk Data)) × (payload.keys ≡ some (k ∷ ks))

  -- The cached keys, if any, have at least one key.
  abbrev pub IsValid : JwksState Data → Type 0
  IsValid s = (payload : Jwks Data) → s.jwks_cache ≡ some payload → HasKeys payload

  -- What makes the keys good enough: they are cached and younger than the time to live when the clock was read, on
  -- entry or under the lock; or they were just received; or a refresh failed, and stale keys are allowed, and
  -- they are not older than that.
  pub data Good (cfg : AuthFields) (f : Fetch Data) (t : JwksState Data) (payload : Jwks Data)
      : Type 0 where
    young :
        (now : ℕ)
        → (now ≡ f.on_entry) ⊎ (now ≡ f.on_lock)
        → t.jwks_cache ≡ some payload
        → now - t.jwks_loaded_at < cfg.auth_jwks_cache_ttl_seconds
        → t.jwks_last_fetch_used_stale_cache ≡ false
        → Good cfg f t payload
    received_now :
        f.answer ≡ returned payload
        → HasKeys payload
        → t.jwks_cache ≡ some payload
        → t.jwks_loaded_at ≡ f.on_answer
        → t.jwks_last_fetch_used_stale_cache ≡ false
        → Good cfg f t payload
    allowed_stale :
        (e : Exn)
        → (f.answer >>= validate_jwks_payload) ≡ raised e
        → t.jwks_cache ≡ some payload
        → 0 < cfg.auth_jwks_max_stale_seconds
        → f.on_answer - t.jwks_loaded_at ≤ cfg.auth_jwks_max_stale_seconds
        → t.jwks_last_fetch_used_stale_cache ≡ true
        → Good cfg f t payload

  pub validate_lem :
      (payload q : Jwks Data)
      → validate_jwks_payload payload ≡ returned q
      → (payload ≡ q) × HasKeys payload
  unfolding validate_jwks_payload
  validate_lem payload q h = by_keys payload q payload.keys refl h
    where
      by_keys :
          (payload q : Jwks Data) (keys : Option (List (Jwk Data)))
          → payload.keys ≡ keys
          → with_keys payload keys ≡ returned q
          → (payload ≡ q) × HasKeys payload
      by_keys payload q none e h = ground arith
      by_keys payload q (some []) e h = ground arith
      by_keys payload q (some (k ∷ ks)) e h = (ground arith, (k, ks, e))

  usable_lem :
      (cfg : AuthFields) (force : Bool) (now : ℕ) (s : JwksState Data) (payload : Jwks Data)
      → usable cfg force now s ≡ some payload
      → (force ≡ false)
        × (s.jwks_cache ≡ some payload)
        × (now - s.jwks_loaded_at < cfg.auth_jwks_cache_ttl_seconds)
  unfolding usable jwks_cache_expired
  usable_lem cfg force now s payload h = ground arith

  stale_lem :
      (cfg : AuthFields) (now : ℕ) (s : JwksState Data) (payload : Jwks Data)
      → stale cfg now s ≡ some payload
      → (s.jwks_cache ≡ some payload)
        × (0 < cfg.auth_jwks_max_stale_seconds)
        × (now - s.jwks_loaded_at ≤ cfg.auth_jwks_max_stale_seconds)
  unfolding stale
  stale_lem cfg now s payload h = ground arith

  module _ (cfg : AuthFields) (f : Fetch Data) where
    refused-Good :
        (s t : JwksState Data) (e : Exn) (payload : Jwks Data) (o : Option (Jwks Data))
        → stale cfg f.on_answer s ≡ o
        → (f.answer >>= validate_jwks_payload) ≡ raised e
        → refused s e o ≡ (t, returned payload)
        → Good cfg f t payload
    refused-Good s t e payload none k a h = ground arith
    refused-Good s t e payload (some keys) k a h =
        let (cached, allowed, age) = stale_lem cfg f.on_answer s keys k in
        returned_subst (Good cfg f) h (allowed_stale e a cached allowed age refl)

    received-Good :
        (s t : JwksState Data) (payload : Jwks Data) (o : Outcome (Jwks Data))
        → (f.answer >>= validate_jwks_payload) ≡ o
        → received cfg f s o ≡ (t, returned payload)
        → Good cfg f t payload
    unfolding store_answer
    received-Good s t payload (raised e) a h = refused-Good s t e payload _ refl a h
    received-Good s t payload (returned keys) a h =
        let (answered, has) = answer_lem f.answer keys a in
        returned_subst (Good cfg f) h (received_now answered has refl refl refl)
      where
        answer_lem :
            (o : Outcome (Jwks Data)) (keys : Jwks Data)
            → (o >>= validate_jwks_payload) ≡ returned keys
            → (o ≡ returned keys) × HasKeys keys
        answer_lem (raised e) keys a = ground arith
        answer_lem (returned q) keys a =
            let (e, has) = validate_lem q keys a in (ap returned e, rw (sym e) has)

    locked-Good :
        (s t : JwksState Data) (force : Bool) (payload : Jwks Data) (o : Option (Jwks Data))
        → usable cfg force f.on_lock s ≡ o
        → or_else_do s o (refresh cfg f s) ≡ (t, returned payload)
        → Good cfg f t payload
    unfolding refresh
    locked-Good s t force payload none e h = received-Good s t payload _ refl h
    locked-Good s t force payload (some keys) e h =
        let (_, cached, age) = usable_lem cfg force f.on_lock s keys e in
        returned_subst (Good cfg f) h (young f.on_lock (inr refl) cached age refl)

    entered-Good :
        (s t : JwksState Data) (force : Bool) (payload : Jwks Data) (o : Option (Jwks Data))
        → usable cfg force f.on_entry s ≡ o
        → or_else_do s o (fetch_locked cfg force f (f.meanwhile s)) ≡ (t, returned payload)
        → Good cfg f t payload
    unfolding fetch_locked
    entered-Good s t force payload none e h = locked-Good (f.meanwhile s) t force payload _ refl h
    entered-Good s t force payload (some keys) e h =
        let (_, cached, age) = usable_lem cfg force f.on_entry s keys e in
        returned_subst (Good cfg f) h (young f.on_entry (inl refl) cached age refl)

    -- Whatever other tasks do while the lock is awaited, the keys that a fetch returns are the cached
    -- ones and good enough: younger than the time to live at the clock's reading on entry or under the lock, or just
    -- received and not empty, or, when the refresh failed, not older than what the settings allow for stale keys, and then marked as stale.
    pub fetch_jwks-Good :
        (force_refresh : Bool) (s t : JwksState Data) (payload : Jwks Data)
        → fetch_jwks cfg force_refresh f s ≡ (t, returned payload)
        → Good cfg f t payload
    unfolding fetch_jwks
    fetch_jwks-Good force_refresh s t payload h = entered-Good s t force_refresh payload _ refl h
