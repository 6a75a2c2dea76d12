-- ===== src/Middleware/LoggingTests.antt =====
-- The theorems on request logging at concrete inputs.
use fastapi_chassis.Base.{
  String, ◌≤◌, ◌<◌, ◌≡◌, ◌↔◌, ◌⊎◌, refl, true, false, none, some, List, [], ◌∷◌, if◌then◌else◌,
  ◌==◌,
}
use fastapi_chassis.Base.Text.{lower}
use fastapi_chassis.Base.Dict.{lookup, put}
use fastapi_chassis.Asgi.{Scope, is_http, raised, run}
use fastapi_chassis.Fixtures.{utf8, http_scope, hello}
use fastapi_chassis.Middleware.RequestId.{undecodable, upstream_id, with_ids, request_id_middleware}
use fastapi_chassis.Middleware.RequestLogging.Identified.{any_start, request_logging-request_id}
use fastapi_chassis.Middleware.RequestLogging.{last_status, AreDecodable}
use fastapi_chassis.Middleware.RequestLogging.Entry.{
  Entry, Libraries, request_logging, request_logging-logs,
}

-- a query of one pair, whose value is encoded first
abbrev libraries : Libraries
libraries = record {
  decode_replace = λ s. s;
  parse_qsl = λ query. if query == "token=a" then ("token", "a") ∷ [] else ("token", "b") ∷ [];
  urlencode = value;
  round = λ n. n;
}
  where
    value : List (String × String) → String
    value [] = ""
    value ((k, v) ∷ ps) = v

request_logging-logs_example :
    let out = request_logging libraries (λ s. some s) true 5 9 hello (http_scope none []) [] in
    (is_http (http_scope none []) ≡ false
      → (out.0 ≡ run [] (hello (http_scope none []))) × (out.1 ≡ []))
    × (is_http (http_scope none []) ≡ true
        → (e : Entry) × (out.1 ≡ e ∷ [])
          × ((e.outcome ≡ "server_error") ↔ (500 ≤ e.http_status_code))
          × ((e.outcome ≡ "success") ↔ (e.http_status_code < 400))
          × ((out.0 ≡ run [] (hello (http_scope none []))) ⊎ (out.0.1 ≡ raised undecodable))
          × (AreDecodable (λ s. some s) (hello (http_scope none []))
              → (out.0 ≡ run [] (hello (http_scope none [])))
                × (e.http_status_code ≡ last_status 500 (run [] (hello (http_scope none []))).0)))
request_logging-logs_example =
    request_logging-logs libraries (λ s. some s) true 5 9 hello (http_scope none []) []

abbrev first_call : Scope
first_call = record (http_scope none (("User-Agent", "curl") ∷ [])) {
  query_string = some "token=a";
}

abbrev second_call : Scope
second_call = record (http_scope none (("User-Agent", "wget") ∷ [])) {
  query_string = some "token=b";
}

-- A caller that gives its trace identifier; the handler answers.
abbrev traced : Scope
traced = http_scope none (("X-Request-ID", "upstream") ∷ [])

upstream : utf8.decode (upstream_id utf8 "own" traced.headers) ≡ some "upstream"
unfolding upstream_id lookup put lower
upstream = refl

request_logging-request_id_example :
    let out =
      request_logging libraries utf8.decode true 5 9
        (request_id_middleware utf8 "own" hello)
        traced
        [] in
    let sent = (run [] (hello (with_ids "own" "upstream" traced))).0 in
    (out.0 ≡ run [] (request_id_middleware utf8 "own" hello traced))
    × (e : Entry) × (out.1 ≡ e ∷ [])
    × (e.http_status_code ≡ last_status 500 sent)
    × (e.request_id ≡ (if any_start sent then "own" else "-"))
    × (e.correlation_id ≡ (if any_start sent then "upstream" else "-"))
request_logging-request_id_example =
    request_logging-request_id libraries utf8 true 5 9 "own" "upstream" hello traced [] refl
      upstream ((refl, refl), tt)
