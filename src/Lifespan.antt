-- ===== src/Lifespan.antt =====
-- src/app/lifespan.py: what is acquired and released, in order. How each call of another library ends is an
-- argument. Log messages are left out.
pub mod Release
mod Tests
use fastapi_chassis.Base.{Bool, true, false, List, [], ◌∷◌, ◌++◌, if◌then◌else◌}
use fastapi_chassis.Outcome.{Exn, Outcome, returned, raised}
use fastapi_chassis.Settings.Fields.{Settings}

-- The resources on the state of the application, the ping of a new store, which may fail, and the moment when requests
-- are served.
pub data Event : Type 0 where
  engine_created client_created store_created : Event
  ping_answered ping_failed : Event
  startup_complete : Event
  store_closed client_closed engine_disposed : Event

-- How each call ends; that of the session factory is with the instrumenting of the engine.
pub record Calls : Type 0 where
  pub create_database_engine : Outcome (Unit {0})
  pub create_session_factory : Outcome (Unit {0})
  pub create_client : Outcome (Unit {0})
  pub warm_up : Outcome (Unit {0})
  pub create_cache_store : Outcome (Unit {0})
  pub ping : Outcome (Unit {0})
  pub serving : Outcome (Unit {0})
  pub close_store : Outcome (Unit {0})
  pub close_client : Outcome (Unit {0})
  pub dispose_engine : Outcome (Unit {0})

-- What happened, and how it ended.
abbrev pub Trace : Type 0
Trace = List Event × Outcome (Unit {0})

abbrev pub doing : Outcome (Unit {0}) → List Event → Trace
doing (returned _) events = (events, returned tt)
doing (raised e) events = ([], raised e)

abbrev pub and_then : Trace → Trace → Trace
and_then (events, returned _) (later, outcome) = (events ++ later, outcome)
and_then (events, raised e) _ = (events, raised e)

-- `try: … finally: …`: the exception of the `finally` part is the one that counts
abbrev pub with_finally : Outcome (Unit {0}) → Trace → Trace
with_finally outcome (events, returned _) = (events, outcome)
with_finally outcome (events, raised e) = (events, raised e)

module _ (s : Settings) (c : Calls) where
  -- a failed warm-up ends the start only if it is required
  abbrev pub warmed : Outcome (Unit {0}) → Trace
  warmed (returned _) = ([], returned tt)
  warmed (raised e) = if s.auth_require_warmup then ([], raised e) else ([], returned tt)

  -- The exception of a ping is caught.
  abbrev pub pinged : Outcome (Unit {0}) → Trace
  pinged (returned _) = (ping_answered ∷ [], returned tt)
  pinged (raised e) = (ping_failed ∷ [], returned tt)

  unfoldable pub cached : Trace
  cached =
      if s.cache_enabled
      then and_then (doing c.create_cache_store (store_created ∷ [])) (pinged c.ping)
      else ([], returned tt)

  unfoldable pub startup : Trace
  unfolding cached
  startup = and_then (doing c.create_database_engine (engine_created ∷ [])) (
      and_then (doing c.create_session_factory []) (
        and_then (doing c.create_client (client_created ∷ []))
          (and_then (warmed c.warm_up) (and_then cached (startup_complete ∷ [], returned tt)))))

  unfoldable pub shutdown : Trace
  shutdown =
      and_then
        (if s.cache_enabled then doing c.close_store (store_closed ∷ []) else ([], returned tt))
        (and_then (doing c.close_client (client_closed ∷ []))
          (doing c.dispose_engine (engine_disposed ∷ [])))

  unfoldable pub lifespan : Trace
  unfolding startup shutdown
  lifespan = and_then startup (with_finally c.serving shutdown)
