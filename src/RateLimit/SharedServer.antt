-- ===== src/RateLimit/SharedServer.antt =====
-- A Redis server that the cache of src/app/cache/store.py and the limiter of
-- src/app/middleware/rate_limit.py share.
use Prim.Native.String.{◌++◌}
use fastapi_chassis.Base.{
  ℕ, ◌+◌, ◌/◌, ◌<◌, ◌≤◌, String, true, none, ◌≡◌, ◌≢◌, refl, sym, ap, ◌∙◌, arith, eq_iff,
}
use fastapi_chassis.Redis.{Redis, count_of, countable}
use fastapi_chassis.Cache.{
  Call, get_call, exists_call, delete_call, set_call, clear_call, close_call,
}
use fastapi_chassis.Cache.Store.{serve}
use fastapi_chassis.Cache.RedisStore.{prefixed, get, set, delete, exists, clear, close, redis_cache}
use fastapi_chassis.RateLimit.{decide_hit}
use fastapi_chassis.RateLimit.RedisStore.{redis_key, hit}

-- A call that the cache can serve on its own keys; a time to live of 0 is an error.
abbrev pub IsKeyed : Call → Type 0
IsKeyed (set_call _ _ ttl) = 0 < ttl
IsKeyed clear_call = ⊥
IsKeyed _ = Unit

module _ (r : Redis) (key_prefix : String) where
  keeps :
      (now later : ℕ) (c : Call) (name : String) (s : r.State)
      → now ≤ later
      → ((j : String) → prefixed r key_prefix j ≢ name)
      → IsKeyed c
      → r.seen later name (serve (redis_cache r key_prefix) now c s) ≡ r.seen later name s
  unfolding serve get set delete exists close
  keeps now later (get_call j) name s le apart ok = r.get-seen now later _ name s le
  keeps now later (exists_call j) name s le apart ok = r.exists-seen now later _ name s le
  keeps now later (delete_call j) name s le apart ok = ground (
    arith,
    r.delete-seen now later (key_prefix ++ j) name s,
    eq_iff (key_prefix ++ j) name,
    apart j,
  )
  keeps now later (set_call j v ttl) name s le apart ok = ground (
    arith,
    r.setex-seen now later (key_prefix ++ j) name ttl v s,
    eq_iff (key_prefix ++ j) name,
    apart j,
  )
  keeps now later clear_call name s le apart ok = elim ok [ ]
  keeps now later close_call name s le apart ok = r.aclose-seen later name s

  decides :
      (limit window now : ℕ) (key : String) (s : r.State)
      → countable (r.seen now (redis_key (now / window) key) s) ≡ true
      → (hit r now key limit window s).1
        ≡ decide_hit limit window
            (now / window)
            (count_of (r.seen now (redis_key (now / window) key) s) + 1)
  unfolding hit decide_hit
  decides limit window now key s c = rw (r.incr-value now (redis_key (now / window) key) s c) refl

  -- On one server, if no key of the cache is the name of the counter, and a number is stored under that name or nothing: no
  -- call on the cache's keys changes the decision on the next hit, at any later reading of the clock, and neither does
  -- closing the cache; but clearing the cache does: the next hit is decided as the first of its window.
  pub cache-keeps_limits :
      (limit window now later : ℕ) (key : String) (c : Call) (s : r.State)
      → now ≤ later
      → ((j : String) → prefixed r key_prefix j ≢ redis_key (later / window) key)
      → countable (r.seen later (redis_key (later / window) key) s) ≡ true
      → (IsKeyed c
          → (hit r later key limit window (serve (redis_cache r key_prefix) now c s)).1
            ≡ (hit r later key limit window s).1)
        × ((hit r later key limit window (clear r key_prefix s)).1
            ≡ decide_hit limit window (later / window) 1)
  cache-keeps_limits limit window now later key c s le apart counted =
      let name = redis_key (later / window) key in
      let gone : r.seen later name (clear r key_prefix s) ≡ none =
        unfold clear in r.flushdb-seen later name s in
      (
        λ ok.
            let same = keeps now later c name s le apart ok in
            decides limit window later key (serve (redis_cache r key_prefix) now c s)
              (ap countable same ∙ counted)
            ∙ (ap (λ o. decide_hit limit window (later / window) (count_of o + 1)) same
                ∙ sym (decides limit window later key s counted)),
        decides limit window later key (clear r key_prefix s) (ap countable gone)
            ∙ ap (λ o. decide_hit limit window (later / window) (count_of o + 1)) gone,
      )
