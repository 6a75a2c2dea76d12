-- ===== src/Cache/RedisStore.antt =====
-- `RedisCacheStore` of src/app/cache/store.py over a Redis server: each operation is one command, on the key
-- with the prefix. What differs from the in-process store is that closing keeps the entries.
use Prim.Native.String.{◌++◌}
use text.Mathlib.TextLemmas.{append_cancel_left}
use fastapi_chassis.Base.{
  ℕ, String, Bool, Option, none, some, ◌≡◌, refl, arith, ◌==◌, eq_iff, eq_refl, eqb, not,
}
use fastapi_chassis.Base.Dict.{is_some}
use fastapi_chassis.Redis.{Stored, bytes, counter, bytes_of, present, Redis}
use fastapi_chassis.Cache.{Bytes}
use fastapi_chassis.Cache.Store.{CacheStore, IsCacheStore}

present-bytes_of : (o : Option Stored) → not (eqb (present o) 0) ≡ is_some (bytes_of o)
present-bytes_of none = refl
present-bytes_of (some (bytes _, _)) = refl
present-bytes_of (some (counter _, _)) = refl

module _ (r : Redis) (key_prefix : String) where
  -- `f"{self._key_prefix}{key}"`
  abbrev pub prefixed : String → String
  prefixed key = key_prefix ++ key

  unfoldable pub get : ℕ → String → r.State → r.State × Option Bytes
  get now key s = r.get now (prefixed key) s

  unfoldable pub set : ℕ → String → Bytes → ℕ → r.State → r.State
  set now key value ttl s = r.setex now (prefixed key) ttl value s

  unfoldable pub delete : ℕ → String → r.State → r.State
  delete now key s = r.delete now (prefixed key) s

  -- `bool(...)` of the number of keys found
  unfoldable pub exists : ℕ → String → r.State → r.State × Bool
  exists now key s = let (s', found) = r.exists now (prefixed key) s in (s', not (eqb found 0))

  unfoldable pub clear : r.State → r.State
  clear s = r.flushdb s

  unfoldable pub ping : r.State → r.State × Bool
  ping s = r.ping s

  unfoldable pub close : r.State → r.State
  close s = r.aclose s

  abbrev pub redis_cache : CacheStore
  redis_cache = record {
    State = r.State;
    get = get;
    set = set;
    delete = delete;
    exists = exists;
    clear = clear;
    ping = ping;
    close = close;
  }

  pub prefixed-eq : (j k : String) → (prefixed j == prefixed k) ≡ (j == k)
  prefixed-eq j k =
      ground
        (arith, eq_iff j k, eq_iff (prefixed j) (prefixed k), append_cancel_left key_prefix j k)

  pub redis_cache-IsCacheStore : IsCacheStore redis_cache
  redis_cache-IsCacheStore = record {
    get-set = λ t now k v ttl s pos le lt.
        unfold get set in
        ground (
          arith,
          r.get-value now (prefixed k) (r.setex t (prefixed k) ttl v s),
          r.setex-seen t now (prefixed k) (prefixed k) ttl v s,
          eq_refl (prefixed k),
        );
    get-set_expired = λ t now k v ttl s pos le.
        unfold get set in
        ground (
          arith,
          r.get-value now (prefixed k) (r.setex t (prefixed k) ttl v s),
          r.setex-seen t now (prefixed k) (prefixed k) ttl v s,
          eq_refl (prefixed k),
        );
    get-delete = λ t now k s le.
        unfold get delete in
        ground (
          arith,
          r.get-value now (prefixed k) (r.delete t (prefixed k) s),
          r.delete-seen t now (prefixed k) (prefixed k) s,
          eq_refl (prefixed k),
        );
    get-clear = λ now k s.
        unfold get clear in
        ground
          (arith, r.get-value now (prefixed k) (r.flushdb s), r.flushdb-seen now (prefixed k) s);
    get-again = λ now later k j s le.
        unfold get in
        rw
          (
            r.get-value later (prefixed j) (r.get now (prefixed k) s).0,
            r.get-value later (prefixed j) s,
            r.get-seen now later (prefixed k) (prefixed j) s le,
          )
          refl;
    exists-get = λ now k s.
        unfold exists get in
        rw (r.exists-value now (prefixed k) s, r.get-value now (prefixed k) s)
          (present-bytes_of (r.seen now (prefixed k) s));
  }
