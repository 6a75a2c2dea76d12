-- ===== src/Lifespan/Tests.antt =====
-- The theorem on the lifespan at concrete inputs: a life in which serving ends with an exception.
use fastapi_chassis.Outcome.{Outcome, returned, raised, timeout_error}
use fastapi_chassis.Lifespan.{Calls}

abbrev calls : Calls
calls = record {
  create_database_engine = returned tt;
  create_session_factory = returned tt;
  create_client = returned tt;
  warm_up = raised timeout_error;
  create_cache_store = returned tt;
  ping = raised timeout_error;
  serving = raised timeout_error;
  close_store = returned tt;
  close_client = returned tt;
  dispose_engine = returned tt;
}
