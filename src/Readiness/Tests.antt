-- ===== src/Readiness/Tests.antt =====
-- Runs of the readiness checks and of their endpoint, and their theorems at concrete inputs. The state
-- is the reading of the clock, which moves on by one at each reading.
use fastapi_chassis.Base.{ℕ, ◌+◌, ◌≡◌, refl, true, false, some, [], ◌∷◌}
use fastapi_chassis.Outcome.{returned, raised, Task, timeout_error}
use fastapi_chassis.Starlette.{object, field, text, flag, num, end}
use fastapi_chassis.Base.Dict.{put}
use fastapi_chassis.Readiness.{as_payload, ReadinessRegistry, run}
use fastapi_chassis.Readiness.Probes.{check_cache_readiness, check_database_readiness}
use fastapi_chassis.Readiness.Run.{IsTotal}
use fastapi_chassis.Readiness.Probing.{probes_total}
use fastapi_chassis.Routes.Health.{readiness_check, readiness_response}

abbrev tick : ℕ → ℕ × ℕ
tick n = (n + 1, n + 1)

abbrev slow_ping : Task ℕ (Unit {0})
slow_ping n = (n + 2000, raised timeout_error)

abbrev select_1 : Task ℕ (Unit {0})
select_1 n = (n + 3, returned tt)

abbrev registry : ReadinessRegistry ℕ
registry =
    ("cache", check_cache_readiness tick (some slow_ping))
    ∷ ("database", check_database_readiness tick (some select_1))
    ∷ []

not_ready : readiness_check tick (λ n. n) false registry 0 ≡ (
  2009,
  returned (record {
    status_code = 503;
    content = object (
        field "status" (text "not_ready") (
          field "checks"
            (object (
              field "cache"
                (object (field "healthy" (flag false) (field "latency_ms" (num 2001) end)))
                (field "database"
                  (object (field "healthy" (flag true) (field "latency_ms" (num 4) end)))
                  end)))
            end));
  }),
)
unfolding readiness_check check_cache_readiness check_database_readiness run readiness_response put
    as_payload
not_ready = refl

cache-IsTotal : IsTotal tick (check_cache_readiness tick (some slow_ping))
cache-IsTotal s =
    let (t, r, e, _) = (probes_total tick (some slow_ping) (some select_1) s).0 in (t, r, e)

database-IsTotal : IsTotal tick (check_database_readiness tick (some select_1))
database-IsTotal s =
    let (t, r, e, _) = (probes_total tick (some slow_ping) (some select_1) s).1 in (t, r, e)
