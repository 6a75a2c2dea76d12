-- ===== src/Logging/Filters.antt =====
-- src/app/log_config/filters.py.
use Prim.Native.String.{◌++◌}
use fastapi_chassis.Base.{
  String, Bool, true, false, not, Option, none, some, List, [], ◌∷◌, any, is_in, ◌==◌, eq_iff,
  eq_refl, ◌≡◌, ◌↔◌, arith, Bool-cases, inl, inr,
}
use fastapi_chassis.Base.Text.Search.{occurs, occurs_iff}
use fastapi_chassis.Logging.Context.{Context, get_request_id, get_correlation_id}

-- A log record: its message, and the attributes that it may have been given.
pub record LogRecord : Type 0 where
  pub message : String
  pub request_id : Option String
  pub correlation_id : Option String

-- `SuppressEndpointFilter.filter`
unfoldable pub suppress_endpoints : List String → LogRecord → Bool
suppress_endpoints endpoints log = not (any (λ endpoint. occurs endpoint log.message) endpoints)

-- an attribute that the record has, or else the value of the context
abbrev pub kept : Option String → String → Option String
kept none value = some value
kept (some given) value = some given

-- `RequestContextFilter.filter`
unfoldable pub add_request_context : Context → LogRecord → LogRecord × Bool
add_request_context context log = (
  record log {
    request_id = kept log.request_id (get_request_id context);
    correlation_id = kept log.correlation_id (get_correlation_id context);
  },
  true,
)

abbrev Mentions : List String → String → Type 0
Mentions endpoints message =
    (endpoint : String) × (u : String) × (v : String) × (is_in endpoint endpoints ≡ true)
    × (message ≡ u ++ (endpoint ++ v))

-- The access filter holds back exactly the records whose message contains one of the endpoints somewhere, the paths
-- that merely begin or end with it included.
pub suppress_endpoints_iff :
    (endpoints : List String) (log : LogRecord)
    → (suppress_endpoints endpoints log ≡ false) ↔ (
        (endpoint : String) × (u : String) × (v : String) × (is_in endpoint endpoints ≡ true)
        × (log.message ≡ u ++ (endpoint ++ v)))
unfolding suppress_endpoints
suppress_endpoints_iff endpoints log =
    (λ h. found endpoints (ground arith), λ m. ground (arith, held endpoints m))
  where
    found :
        (es : List String)
        → any (λ endpoint. occurs endpoint log.message) es ≡ true
        → Mentions es log.message
    found [] h = ground arith
    found (e ∷ es) h = elim (Bool-cases (occurs e log.message)) [
      | inl here ↦
          let (u, v, split) = (occurs_iff e log.message).0 here in
          (e, u, v, ground (arith, eq_refl e), split)
      | inr elsewhere ↦
          let (f, u, v, member, split) = found es (ground arith) in
          (f, u, v, ground (arith, member), split)
    ]

    held :
        (es : List String)
        → Mentions es log.message
        → any (λ endpoint. occurs endpoint log.message) es ≡ true
    held [] (e, u, v, member, split) = ground arith
    held (f ∷ es) (e, u, v, member, split) = elim (Bool-cases (f == e)) [
      | inl same ↦
          let there = (occurs_iff e log.message).1 (u, v, split) in
          let first : f ≡ e = ground (arith, same, eq_iff f e) in rw first (ground (arith, there))
      | inr other ↦ ground (arith, held es (e, u, v, ground (arith, member, other), split))
    ]
