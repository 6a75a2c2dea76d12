-- ===== src/Middleware/Tests.antt =====
-- Runs of the middleware, and their theorems at concrete inputs.
use fastapi_chassis.Base.{◌≤◌, ◌<◌, ◌≡◌, ◌≢◌, refl, true, false, none, some, List, [], ◌∷◌, arith}
use fastapi_chassis.Base.Text.{parse_int}
use fastapi_chassis.Fixtures.{responses, http_scope, hello}
use fastapi_chassis.Asgi.{
  Scope, request, Delivery, message, failed, timeout_error, start, body, done, raise, receive, send,
  Application, returned, raised, run,
}
use fastapi_chassis.Asgi.Protocol.{
  Speaks, idle, after, phase_after, IsResponse, run-IsResponse, status_of,
}
use fastapi_chassis.Starlette.{respond}
use fastapi_chassis.Middleware.BodySize.{content_length, body_size_limit}
use fastapi_chassis.Middleware.BodySize.Limit.{
  body_bytes, limit_stream, recovered, run-body_size_limit,
}
use fastapi_chassis.Middleware.Timeout.{limit_time}
use fastapi_chassis.Middleware.Timeout.Whole.{limit_time-Speaks, steps, limit_time_in_send}

-- An application that reads one message, passes on what reading raises, and answers 200.
abbrev reader : Application
reader scope = receive (λ d. elim d [
  | message m ↦ send (start 200 []) (send (body [] false) done)
  | failed e ↦ raise e
])

abbrev plain : Scope
plain = http_scope (some "203.0.113.9") []

abbrev three_bytes : List Delivery
three_bytes = message (request (1 ∷ 2 ∷ 3 ∷ []) false) ∷ []

too_large :
    (status_of (run three_bytes (body_size_limit responses 2 reader plain)).0 ≡ some 413)
    × (status_of (run three_bytes (body_size_limit responses 3 reader plain)).0 ≡ some 200)
unfolding body_size_limit run respond
too_large = (refl, refl)

run-body_size_limit_example :
    (run three_bytes (body_size_limit responses 2 reader plain)
      ≡ recovered responses 2 (run (limit_stream 2 0 three_bytes) (reader plain)))
    × (body_bytes (limit_stream 2 0 three_bytes) ≤ 2)
    × (body_bytes three_bytes ≤ 2 → limit_stream 2 0 three_bytes ≡ three_bytes)
unfolding body_size_limit
run-body_size_limit_example = run-body_size_limit responses 2 reader plain three_bytes refl tt

abbrev declared_bad : Scope
declared_bad = http_scope none (("content-length", "12x") ∷ [])

declared_length : content_length declared_bad.headers ≡ some "12x"
unfolding body_size_limit
declared_length = refl

not_a_number : parse_int "12x" ≡ none
unfolding parse_int
not_a_number = refl

lengths :
    (parse_int " +1_000" ≡ some (false, 1000))
    × (parse_int "-5" ≡ some (true, 5))
    × (parse_int "" ≡ none)
    × (parse_int "1__0" ≡ none)
unfolding parse_int
lengths = (refl, refl, refl, refl)

hello-Speaks : Speaks idle (hello plain)
unfolding after
hello-Speaks = refl

limit_time-Speaks_example : Speaks idle (limit_time responses 30 1 false hello plain)
limit_time-Speaks_example = limit_time-Speaks responses 30 1 hello plain hello-Speaks

-- Cut after the start, the response is closed by an empty body; cut before, the answer is 504.
cut :
    (run [] (limit_time responses 30 1 false hello plain)
      ≡ (start 200 [] ∷ body [] false ∷ [], returned))
    × (status_of (run [] (limit_time responses 30 0 false hello plain)).0 ≡ some 504)
unfolding limit_time run respond
cut = (refl, refl)

two_steps : steps [] (hello plain) < 3
unfolding steps
two_steps = omega arith

hello_returns : (run [] (hello plain)).1 ≢ raised timeout_error
unfolding run
hello_returns = λ e. cc

limit_time_in_send_example :
    (run three_bytes (limit_time responses 30 1 true reader plain) ≡ (body [] false ∷ [], returned))
    × (phase_after idle (run three_bytes (limit_time responses 30 1 true reader plain)).0 ≡ none)
limit_time_in_send_example = limit_time_in_send responses 30 1 reader plain three_bytes refl tt

run-IsResponse_example :
    IsResponse (phase_after idle (run [] (hello plain)).0) (run [] (hello plain)).1
run-IsResponse_example = run-IsResponse idle [] (hello plain) hello-Speaks
