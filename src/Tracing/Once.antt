-- ===== src/Tracing/Once.antt =====
-- What tracing sets up once for a process, and what for each application.
use fastapi_chassis.Base.{
  Bool, true, false, not, List, [], ◌∷◌, keep, if◌then◌else◌, ◌≡◌, refl, ap, Bool-cases, inl, inr,
}
use fastapi_chassis.Settings.Fields.{Settings}
use fastapi_chassis.Tracing.{
  TracingState, initial, Event, provider_set, httpx_instrumented, app_instrumented,
  engine_instrumented, provider_of, configure_tracing, excluded_urls, instrument_fastapi_app,
  instrument_database_engine, trace_app, trace_apps,
}

-- an event of the process, not of one application
abbrev pub is_global : Event → Bool
is_global (provider_set _ _ _) = true
is_global httpx_instrumented = true
is_global (app_instrumented _) = false
is_global engine_instrumented = false

-- The set-up of the process by the first application that has tracing on.
abbrev pub set_up_by_first : List Settings → List Event
set_up_by_first [] = []
set_up_by_first (s ∷ ss) =
    if s.otel_enabled then provider_of s ∷ httpx_instrumented ∷ [] else set_up_by_first ss

-- The instrumentation of each application that has tracing on.
abbrev pub instrumented : List Settings → List Event
instrumented [] = []
instrumented (s ∷ ss) =
    if s.otel_enabled
    then app_instrumented (excluded_urls s) ∷ engine_instrumented ∷ instrumented ss
    else instrumented ss

abbrev configured : TracingState
configured = record { provider_configured = true; httpx_instrumented = true }

abbrev Splits : List Event → List Event → List Event → Type 0
Splits events globals locals =
    (keep is_global events ≡ globals) × (keep (λ e. not (is_global e)) events ≡ locals)

-- Once configured, a process is not configured again.
apps_configured : (ss : List Settings) → Splits (trace_apps ss configured).1 [] (instrumented ss)
unfolding trace_apps trace_app configure_tracing instrument_fastapi_app instrument_database_engine
apps_configured [] = (refl, refl)
apps_configured (s ∷ ss) = elim (Bool-cases s.otel_enabled) [
  | inl on ↦ rw on (
    (apps_configured ss).0,
    ap (λ l. app_instrumented (excluded_urls s) ∷ engine_instrumented ∷ l) (apps_configured ss).1,
  )
  | inr off ↦ rw off (apps_configured ss)
]

-- However many applications one process makes, the tracer provider is set once and the HTTP client instrumented once, by
-- the first application that has tracing on and with its settings, or never if none has; and each application that
-- has tracing on, and no other, is instrumented with its engine.
trace_apps_once :
    (ss : List Settings)
    → (keep is_global (trace_apps ss initial).1 ≡ set_up_by_first ss)
      × (keep (λ e. not (is_global e)) (trace_apps ss initial).1 ≡ instrumented ss)
unfolding trace_apps trace_app configure_tracing instrument_fastapi_app instrument_database_engine
trace_apps_once [] = (refl, refl)
trace_apps_once (s ∷ ss) = elim (Bool-cases s.otel_enabled) [
  | inl on ↦ rw on (
    ap (λ l. provider_of s ∷ httpx_instrumented ∷ l) (apps_configured ss).0,
    ap (λ l. app_instrumented (excluded_urls s) ∷ engine_instrumented ∷ l) (apps_configured ss).1,
  )
  | inr off ↦ rw off (trace_apps_once ss)
]
