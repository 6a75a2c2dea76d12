-- ===== src/Fixtures/RedisServer.antt =====
-- A Redis server that keeps its entries in a dict: it meets what the program relies on.
use fastapi_chassis.Base.{
  ℕ, ◌+◌, ◌≤◌, String, true, Option, none, some, ◌≡◌, refl, ◌==◌, if◌then◌else◌, arith, [],
}
use fastapi_chassis.Base.Dict.{Dict, lookup, put, pop, lookup-put, lookup-pop}
use fastapi_chassis.Redis.{
  bytes, Stored, alive, bytes_of, count_of, incremented, timed, present, Redis,
}

abbrev pub at : ℕ → String → Dict Stored → Option Stored
at t k s = alive t (lookup k s)

-- the dict with what a command leaves under its key
abbrev pub leave : String → Option Stored → Dict Stored → Dict Stored
leave k none s = pop k s
leave k (some e) s = put k e s

pub at-leave :
    (t : ℕ) (k j : String) (o : Option Stored) (s : Dict Stored)
    → at t j (leave k o s) ≡ (if k == j then alive t o else at t j s)
at-leave t k j none s = ground (arith, lookup-pop k j s)
at-leave t k j (some e) s = ground (arith, lookup-put k j e s)

alive-alive : (now t : ℕ) (o : Option Stored) → now ≤ t → alive t (alive now o) ≡ alive t o
alive-alive now t none le = refl
alive-alive now t (some (v, none)) le = refl
alive-alive now t (some (v, some x)) le = ground arith

pub at-empty : (t : ℕ) (j : String) → at t j [] ≡ none
unfolding lookup
at-empty t j = refl

abbrev pub dict_redis : Redis
dict_redis = record {
  State = Dict Stored;
  seen = at;
  get = λ now k s. (s, bytes_of (at now k s));
  setex = λ now k ttl v s. put k (bytes v, some (now + ttl)) s;
  delete = λ now k s. pop k s;
  exists = λ now k s. (s, present (at now k s));
  flushdb = λ s. [];
  incr = λ now k s. (leave k (incremented (at now k s)) s, count_of (at now k s) + 1);
  expire = λ now k ttl s. leave k (timed (now + ttl) (at now k s)) s;
  ping = λ s. (s, true);
  aclose = λ s. s;
  get-value = λ now k s. refl;
  get-seen = λ now t k j s le. refl;
  exists-value = λ now k s. refl;
  exists-seen = λ now t k j s le. refl;
  setex-seen = λ now t k j ttl v s le pos. at-leave t k j (some (bytes v, some (now + ttl))) s;
  delete-seen = λ now t k j s le. at-leave t k j none s;
  flushdb-seen = λ t j s. at-empty t j;
  aclose-seen = λ t j s. refl;
  incr-value = λ now k s c. refl;
  incr-seen = λ now t k j s le c. at-leave t k j (incremented (at now k s)) s;
  expire-seen = λ now t k j ttl s le pos. at-leave t k j (timed (now + ttl) (at now k s)) s;
}
