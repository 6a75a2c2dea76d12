-- ===== src/Tracing.antt =====
-- src/app/observability/tracing.py. The objects of OpenTelemetry are left out: a call of it is an event.
pub mod Headers
pub mod Once
mod Tests
use Prim.Native.String.{◌++◌}
use fastapi_chassis.Base.{
  String, Bool, true, false, not, ◌||◌, List, [], ◌∷◌, ◌++◌ as append, if◌then◌else◌,
}
use fastapi_chassis.Base.Dict.{Dict}
use fastapi_chassis.Settings.Fields.{Settings}
use fastapi_chassis.Tracing.Headers.{parse_headers}

-- the two module globals
pub record TracingState : Type 0 where
  pub provider_configured : Bool
  pub httpx_instrumented : Bool

abbrev pub initial : TracingState
initial = record { provider_configured = false; httpx_instrumented = false }

-- The tracer provider of the process, with its resource and its exporter, or an instrumentation.
pub data Event : Type 0 where
  provider_set : List (String × String) → String → Dict String → Event
  httpx_instrumented : Event
  app_instrumented : String → Event
  engine_instrumented : Event

abbrev pub provider_of : Settings → Event
provider_of s =
    provider_set
      (("service.name", s.otel_service_name)
        ∷ ("service.version", s.otel_service_version)
        ∷ ("deployment.environment", s.otel_environment)
        ∷ [])
      s.otel_exporter_otlp_endpoint (parse_headers s.otel_exporter_otlp_headers)

unfoldable pub configure_tracing : Settings → TracingState → TracingState × List Event
configure_tracing s t =
    if not s.otel_enabled || t.provider_configured
    then (t, [])
    else if not t.httpx_instrumented
    then (
      record { provider_configured = true; httpx_instrumented = true },
      provider_of s ∷ httpx_instrumented ∷ [],
    )
    else (record t { provider_configured = true }, provider_of s ∷ [])

-- `",".join([…])`
unfoldable pub excluded_urls : Settings → String
excluded_urls s =
    s.health_check_path
    ++ ("," ++ (s.readiness_check_path ++ ("," ++ ("/metrics" ++ ("," ++ "/favicon.ico")))))

unfoldable pub instrument_fastapi_app : Settings → List Event
unfolding excluded_urls
instrument_fastapi_app s =
    if not s.otel_enabled then [] else app_instrumented (excluded_urls s) ∷ []

unfoldable pub instrument_database_engine : Settings → List Event
instrument_database_engine s = if not s.otel_enabled then [] else engine_instrumented ∷ []

-- What tracing does for one application: `setup_tracing` of src/app/app_builder.py, and then the start of its lifespan.
unfoldable pub trace_app : Settings → TracingState → TracingState × List Event
unfolding configure_tracing instrument_fastapi_app instrument_database_engine
trace_app s t =
    let (u, configured) = configure_tracing s t in
    (u, append configured (append (instrument_fastapi_app s) (instrument_database_engine s)))

-- The same for several applications of one process, in order.
unfoldable pub trace_apps : List Settings → TracingState → TracingState × List Event
trace_apps [] t = (t, [])
trace_apps (s ∷ ss) t =
    let (u, events) = trace_app s t in let (v, later) = trace_apps ss u in (v, append events later)
