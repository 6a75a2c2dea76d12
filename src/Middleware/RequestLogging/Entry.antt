-- ===== src/Middleware/RequestLogging/Entry.antt =====
-- The log record of src/app/middleware/request_logging.py: one for each HTTP request, in the `finally` part. The clock,
-- the decoding of bytes with replacement, and the parsing and encoding of queries are parameters. A header's value is its
-- Latin-1 text, which is no number if it is not ASCII.
use Prim.Native.String.{◌++◌}
use fastapi_chassis.Base.{
  ℕ, ◌-◌, ◌/◌, ◌≤◌, ◌<◌, String, Bool, true, false, not, Option, none, some, List, [], ◌∷◌,
  if◌then◌else◌, or_else, ◌≡◌, refl, arith, ◌↔◌, ◌⊎◌, eq_iff,
}
use fastapi_chassis.Base.Text.{parse_int, print_nat}
use fastapi_chassis.Base.Dict.{Dict, lookup}
use fastapi_chassis.Asgi.{Scope, is_http, Delivery, Sent, Application, Ending, raised, run}
use fastapi_chassis.Middleware.RequestId.{lowered, undecodable}
use fastapi_chassis.Middleware.RequestLogging.{
  Observed, nothing_observed, logged_run, logged_run-ends, outcome_from_status,
  sanitize_query_string, last_status, AreDecodable, logged_run-eq-run,
}

-- the `extra` of the record
pub record Entry : Type 0 where
  pub request_id : String
  pub correlation_id : String
  pub http_method : String
  pub http_path : String
  pub http_query : String
  pub http_status_code : ℕ
  pub http_status_class : String
  pub duration_ms : ℕ
  pub client_ip : String
  pub user_agent : String
  pub referer : String
  pub request_bytes : Option (Bool × ℕ)
  pub response_bytes : Option (Bool × ℕ)
  pub outcome : String

abbrev pub redacted : String
redacted = "[redacted]"

unfoldable pub headers_to_dict : Scope → Dict String
headers_to_dict scope = lowered [] scope.headers

abbrev pub parse_ascii_int : Option String → Option (Bool × ℕ)
parse_ascii_int none = none
parse_ascii_int (some value) = parse_int value

pub record Libraries : Type 0 where
  -- `bytes.decode("utf-8", errors="replace")`
  pub decode_replace : String → String
  pub parse_qsl : String → List (String × String)
  pub urlencode : List (String × String) → String
  -- from a difference of clock readings, in milliseconds with two decimals
  pub round : ℕ → ℕ

module _ (l : Libraries) where
  abbrev pub decode_header : Option String → String
  decode_header none = "-"
  decode_header (some value) = l.decode_replace value

  unfoldable pub log_entry : Bool → Scope → ℕ → ℕ → Observed → Entry
  unfolding headers_to_dict
  log_entry redact_headers scope started ended o =
      let headers = headers_to_dict scope in
      record {
        request_id = o.request_id;
        correlation_id = o.correlation_id;
        http_method = or_else scope.method "-";
        http_path = or_else scope.path "-";
        http_query =
            sanitize_query_string l.parse_qsl l.urlencode
              (l.decode_replace (or_else scope.query_string ""));
        http_status_code = o.status_code;
        http_status_class = print_nat (o.status_code / 100) ++ "xx";
        duration_ms = l.round (ended - started);
        client_ip = or_else scope.client "-";
        user_agent =
            if redact_headers then redacted else decode_header (lookup "user-agent" headers);
        referer = if redact_headers then redacted else decode_header (lookup "referer" headers);
        request_bytes = parse_ascii_int (lookup "content-length" headers);
        response_bytes = o.response_bytes;
        outcome = outcome_from_status o.status_code;
      }

  -- What is sent, how it ends, and what is logged: the arguments are the decoding of the identifiers and the clock readings at
  -- the start and the end.
  unfoldable pub request_logging :
      (String → Option String)
      → Bool
      → ℕ
      → ℕ
      → Application
      → Scope
      → List Delivery
      → (List Sent × Ending) × List Entry
  unfolding log_entry
  request_logging decode redact_headers started ended app scope ds =
      let logged = logged_run decode nothing_observed ds (app scope) in
      if not (is_http scope)
      then (run ds (app scope), [])
      else (logged.0, log_entry redact_headers scope started ended logged.1 ∷ [])

  outcome_lem :
      (n : ℕ)
      → ((outcome_from_status n ≡ "server_error") ↔ (500 ≤ n))
        × ((outcome_from_status n ≡ "success") ↔ (n < 400))
  unfolding outcome_from_status
  outcome_lem n = (
    (
      λ h. ground (arith, h, eq_iff "client_error" "server_error", eq_iff "success" "server_error"),
      λ le. ground arith,
    ),
    (
      λ h. ground (arith, h, eq_iff "client_error" "success", eq_iff "server_error" "success"),
      λ lt. ground arith,
    ),
  )

  -- A request of HTTP gives one log record, however the application ends, and any other kind none, which is passed
  -- through as it is. The outcome of the record is a server error exactly from 500 on and a success exactly below 400.
  -- The request is answered as without the log, or it ends with the error of an identifier on a response that cannot be
  -- decoded; if all can be decoded it is answered as without the log, and the record has the status of the last start,
  -- or 500 if there was none.
  pub request_logging-logs :
      (decode : String → Option String) (redact_headers : Bool) (started ended : ℕ)
      (app : Application) (scope : Scope) (ds : List Delivery)
      → let out = request_logging decode redact_headers started ended app scope ds in
        (is_http scope ≡ false → (out.0 ≡ run ds (app scope)) × (out.1 ≡ []))
        × (is_http scope ≡ true
            → (e : Entry) × (out.1 ≡ e ∷ [])
              × ((e.outcome ≡ "server_error") ↔ (500 ≤ e.http_status_code))
              × ((e.outcome ≡ "success") ↔ (e.http_status_code < 400))
              × ((out.0 ≡ run ds (app scope)) ⊎ (out.0.1 ≡ raised undecodable))
              × (AreDecodable decode (app scope)
                  → (out.0 ≡ run ds (app scope))
                    × (e.http_status_code ≡ last_status 500 (run ds (app scope)).0)))
  unfolding request_logging
  request_logging-logs decode redact_headers started ended app scope ds = (
    λ other. (rw other refl, rw other refl),
    λ http. rw http (
      _,
      refl,
      unfold log_entry in (outcome_lem _).0,
      unfold log_entry in (outcome_lem _).1,
      logged_run-ends decode nothing_observed ds (app scope),
      λ decodable.
          unfold log_entry in logged_run-eq-run decode nothing_observed ds (app scope) decodable,
    ),
  )
