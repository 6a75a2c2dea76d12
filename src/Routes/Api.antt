-- ===== src/Routes/Api.antt =====
-- src/app/routes/api.py. The handlers get the principal from the dependencies of Auth/Dependencies. The
-- encoding of texts as bytes, its decoding, and the text of the present time are parameters; the cache
-- is any store.
use fastapi_chassis.Base.{
  ℕ, ◌+◌, ◌<◌, String, true, not, Option, none, some, [], ◌∷◌, if◌then◌else◌, ◌≡◌, refl, ap, ◌∙◌,
  ◌≤◌, arith,
}
use fastapi_chassis.Asgi.{Bytes}
use fastapi_chassis.Starlette.{Json, flag, text, array, object, end, field}
use fastapi_chassis.Settings.Fields.{Settings}
use fastapi_chassis.Outcome.{Outcome}
use fastapi_chassis.Auth.Claims.{Principal}
use fastapi_chassis.Auth.Dependencies.{require_scopes, require_roles}
use fastapi_chassis.Routes.Health.{optional_text, text_items}
use fastapi_chassis.Cache.Store.{CacheStore, IsCacheStore}

-- the requirements of the protected routes
abbrev pub reports_reader : Principal → Outcome Principal
reports_reader = require_scopes ("reports:read" ∷ [])

abbrev pub admin_role : Principal → Outcome Principal
admin_role = require_roles ("admin" ∷ [])

pub get_me : Principal → Json
get_me p = object (
    field "subject" (text p.subject) (
      field "issuer" (optional_text p.issuer) (
        field "audience" (array (text_items p.audience)) (
          field "scopes" (array (text_items p.scopes))
            (field "roles" (array (text_items p.roles)) end)))))

pub get_reports : Principal → Json
get_reports p = object (
    field "status" (text "ok")
      (field "subject" (text p.subject) (field "report_access" (flag true) end)))

pub get_admin_dashboard : Principal → Json
get_admin_dashboard p =
    object (
      field "status" (text "ok") (field "subject" (text p.subject) (field "admin" (flag true) end)))

abbrev pub time_key : String
time_key = "example:current_time"

abbrev pub time_answer : String → String → Json
time_answer time source = object (field "time" (text time) (field "source" (text source) end))

-- `str.encode` and `bytes.decode`
pub record Encoding : Type 0 where
  pub encode : String → Bytes
  pub decode : Bytes → String

module _ (e : Encoding) (cfg : Settings) (c : CacheStore) where
  -- the answer on what the cache returned; a miss stores the time
  abbrev pub on_cached : ℕ → String → c.State × Option Bytes → c.State × Json
  on_cached now time (store, some cached) = (store, time_answer (e.decode cached) "cache")
  on_cached now time (store, none) = (
    c.set now time_key (e.encode time) cfg.cache_default_ttl_seconds store,
    time_answer time "live",
  )

  unfoldable pub get_cached_time : ℕ → String → c.State → c.State × Json
  get_cached_time now time store =
      if not cfg.cache_enabled
      then (
        store,
        object (
            field "time" (text time)
              (field "source" (text "live") (field "cache" (text "disabled") end))),
      )
      else on_cached now time (c.get now time_key store)

  missed :
      (t : ℕ) (time : String) (o : c.State × Option Bytes)
      → o.1 ≡ none
      → on_cached t time o ≡ (
        c.set t time_key (e.encode time) cfg.cache_default_ttl_seconds o.0,
        time_answer time "live",
      )
  missed t time (store, none) h = refl
  missed t time (store, some v) h = ground arith

  answered :
      (t : ℕ) (time : String) (o : c.State × Option Bytes) (v : Bytes)
      → o.1 ≡ some v
      → on_cached t time o ≡ (o.0, time_answer (e.decode v) "cache")
  answered t time (store, some w) v h = ap (λ o. on_cached t time (store, o)) h
  answered t time (store, none) v h = ground arith

  -- Over any store that keeps the laws of a cache, and for an encoding that reads the time back: while nothing is
  -- stored the answer is live, and until the time to live is over a later call with no call between answers the same
  -- time from the cache, whatever the time is then, and leaves what the store returns later as it is; and once it is over the answer is live again.
  pub get_cached_time_repeats :
      (laws : IsCacheStore c) (t now : ℕ) (time later : String) (store : c.State)
      → cfg.cache_enabled ≡ true
      → 0 < cfg.cache_default_ttl_seconds
      → e.decode (e.encode time) ≡ time
      → (c.get t time_key store).1 ≡ none
      → t ≤ now
      → let first = get_cached_time t time store in
        (first.1 ≡ time_answer time "live")
        × (now < t + cfg.cache_default_ttl_seconds
            → ((get_cached_time now later first.0).1 ≡ time_answer time "cache")
              × ((u : ℕ) (k : String)
                  → now ≤ u
                  → (c.get u k (get_cached_time now later first.0).0).1 ≡ (c.get u k first.0).1))
        × (t + cfg.cache_default_ttl_seconds ≤ now
            → (get_cached_time now later first.0).1 ≡ time_answer later "live")
  unfolding get_cached_time
  get_cached_time_repeats laws t now time later store on pos coded miss le =
      let s = (c.get t time_key store).0 in
      let value = e.encode time in
      let ttl = cfg.cache_default_ttl_seconds in
      rw (on, missed t time (c.get t time_key store) miss)
        (
          refl,
          λ fresh.
              let found = laws.get-set t now time_key value ttl s pos le fresh in
              let cached =
                answered now later (c.get now time_key (c.set t time_key value ttl s)) value
                  found in
              (
                ap (λ x. x.1) cached ∙ ap (λ x. time_answer x "cache") coded,
                λ u k after.
                    ap (λ x. (c.get u k x.0).1) cached
                    ∙ laws.get-again now u time_key k (c.set t time_key value ttl s) after,
              ),
          λ over.
              ap (λ x. x.1)
                (missed now later (c.get now time_key (c.set t time_key value ttl s))
                  (laws.get-set_expired t now time_key value ttl s pos over)),
        )
