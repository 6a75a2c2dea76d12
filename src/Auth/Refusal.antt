-- ===== src/Auth/Refusal.antt =====
-- When `_fetch_jwks` of src/app/auth/service.py raises, and the invariant of its cache.
use fastapi_chassis.Base.{ℕ, ◌-◌, ◌≡◌, refl, sym, ap, Bool, Option, none, some, ◌<◌, ◌⊎◌, arith}
use fastapi_chassis.Outcome.{Outcome, returned, raised, Exn, ◌>>=◌, raised_injective}
use fastapi_chassis.Settings.Fields.{AuthFields}
use fastapi_chassis.Auth.Jwks.{
  Jwks, JwksState, Fetch, validate_jwks_payload, store_answer, stale, refused, received, refresh,
  or_else_do, fetch_locked, fetch_jwks,
}
use fastapi_chassis.Auth.Freshness.{IsValid, HasKeys, validate_lem}

module _ {Data : Type 0} (cfg : AuthFields) where
  -- No keys can stand in for a failed refresh at a reading of the clock.
  abbrev pub NoneStale : ℕ → JwksState Data → Type 0
  NoneStale now s =
      (s.jwks_cache ≡ none)
      ⊎ ((cfg.auth_jwks_max_stale_seconds ≡ 0)
          ⊎ (cfg.auth_jwks_max_stale_seconds < now - s.jwks_loaded_at))

  stale-none : (now : ℕ) (s : JwksState Data) → stale cfg now s ≡ none → NoneStale now s
  unfolding stale
  stale-none now s h = ground arith

  module _ (f : Fetch Data) where
    refused_lem :
        (s t : JwksState Data) (e x : Exn) (o : Option (Jwks Data))
        → stale cfg f.on_answer s ≡ o
        → refused s e o ≡ (t, raised x)
        → (e ≡ x) × NoneStale f.on_answer s
    refused_lem s t e x none k h = (raised_injective h, stale-none f.on_answer s k)
    refused_lem s t e x (some keys) k h = ground arith

    received_lem :
        (s t : JwksState Data) (x : Exn) (o : Outcome (Jwks Data))
        → received cfg f s o ≡ (t, raised x)
        → (o ≡ raised x) × NoneStale f.on_answer s
    received_lem s t x (returned keys) h = ground arith
    received_lem s t x (raised e) h =
        let (k, old) = refused_lem s t e x _ refl h in (ap raised k, old)

    locked_lem :
        (s t : JwksState Data) (x : Exn) (o : Option (Jwks Data))
        → or_else_do s o (refresh cfg f s) ≡ (t, raised x)
        → ((f.answer >>= validate_jwks_payload) ≡ raised x) × NoneStale f.on_answer s
    unfolding refresh
    locked_lem s t x none h = received_lem s t x _ h
    locked_lem s t x (some keys) h = ground arith

    entered_lem :
        (force : Bool) (s t : JwksState Data) (x : Exn) (o : Option (Jwks Data))
        → or_else_do s o (fetch_locked cfg force f (f.meanwhile s)) ≡ (t, raised x)
        → ((f.answer >>= validate_jwks_payload) ≡ raised x) × NoneStale f.on_answer (f.meanwhile s)
    unfolding fetch_locked
    entered_lem force s t x none h = locked_lem (f.meanwhile s) t x _ h
    entered_lem force s t x (some keys) h = ground arith

    -- A fetch raises only the exception of its own request, or of the check of its answer, and only
    -- if no cached keys can stand in: none are cached, stale keys are not allowed, or they are too old.
    pub fetch_jwks-refuses :
        (force_refresh : Bool) (s t : JwksState Data) (x : Exn)
        → fetch_jwks cfg force_refresh f s ≡ (t, raised x)
        → ((f.answer >>= validate_jwks_payload) ≡ raised x) × NoneStale f.on_answer (f.meanwhile s)
    unfolding fetch_jwks
    fetch_jwks-refuses force_refresh s t x h = entered_lem force_refresh s t x _ h

    or_else_do-IsValid :
        (s : JwksState Data) (o : Option (Jwks Data)) (p : JwksState Data × Outcome (Jwks Data))
        → IsValid s
        → IsValid p.0
        → IsValid (or_else_do s o p).0
    or_else_do-IsValid s none p h k = k
    or_else_do-IsValid s (some keys) p h k = h

    refused-IsValid :
        (s : JwksState Data) (e : Exn) (o : Option (Jwks Data))
        → IsValid s
        → IsValid (refused s e o).0
    refused-IsValid s e none h = h
    refused-IsValid s e (some keys) h = h

    received-IsValid :
        (s : JwksState Data) (o : Outcome (Jwks Data))
        → (f.answer >>= validate_jwks_payload) ≡ o
        → IsValid s
        → IsValid (received cfg f s o).0
    unfolding store_answer
    received-IsValid s (raised e) a h = refused-IsValid s e _ h
    received-IsValid s (returned keys) a h =
        λ payload k. rw (sym (some_injective k)) (has f.answer keys a)
      where
        some_injective : {a b : Jwks Data} → some a ≡ some b → a ≡ b
        some_injective h = ground arith

        has :
            (o : Outcome (Jwks Data)) (keys : Jwks Data)
            → (o >>= validate_jwks_payload) ≡ returned keys
            → HasKeys keys
        has (raised e) keys a = ground arith
        has (returned q) keys a = let (e, k) = validate_lem q keys a in rw (sym e) k

    -- A fetch never caches a key set without keys, if other tasks do not.
    pub fetch_jwks-IsValid :
        (force_refresh : Bool) (s : JwksState Data)
        → ((r : JwksState Data) → IsValid r → IsValid (f.meanwhile r))
        → IsValid s
        → IsValid (fetch_jwks cfg force_refresh f s).0
    unfolding fetch_jwks fetch_locked refresh
    fetch_jwks-IsValid force_refresh s others h = or_else_do-IsValid s _ _ h (
        or_else_do-IsValid (f.meanwhile s) _ _ (others s h)
          (received-IsValid (f.meanwhile s) _ refl (others s h)))
