-- ===== src/Middleware/Timeout.antt =====
-- src/app/middleware/timeout.py. `asyncio.wait_for` cancels the inner application at a moment that
-- the model takes as an argument: after `n` of its steps, and, if `in_send` is true and its next step
-- is a send, while that send waits, so that its message is lost. A cancelled application does
-- nothing more.
pub mod Whole
use Prim.Native.String.{◌++◌}
use fastapi_chassis.Base.{
  ℕ, zero, suc, String, Bool, true, false, not, ◌||◌, List, [], ◌∷◌, if◌then◌else◌,
}
use fastapi_chassis.Base.Text.{print_nat}
use fastapi_chassis.Asgi.{
  Scope, is_http, Failure, request_too_large, timeout_error, other, Sent, start, body, App, done,
  raise, receive, send, Application,
}
use fastapi_chassis.Asgi.Path.{get_sanitized_scope_path}
use fastapi_chassis.Starlette.{Json, text, object, field, end, Responses, respond}

-- `response_started` and `response_completed`
pub record Progress : Type 0 where
  pub response_started : Bool
  pub response_completed : Bool

-- `send_wrapper`: it notes a message before it sends it
unfoldable pub note : Sent → Progress → Progress
note (start _ _) p = record p { response_started = true }
note (body _ more_body) p = record p { response_completed = p.response_completed || not more_body }

module _ (r : Responses) (timeout : ℕ) (scope : Scope) where
  pub gateway_timeout : App
  gateway_timeout =
      respond r 504
        (object (
          field "error" (text "gateway_timeout") (
            field "detail"
              (text ("Request processing exceeded " ++ (print_nat timeout ++ "s limit")))
              (field "path" (text (get_sanitized_scope_path scope)) end))))
        []

  -- `except TimeoutError`
  pub on_timeout : Progress → App
  on_timeout p =
      if p.response_started
      then (if p.response_completed then done else send (body [] false) done)
      else gateway_timeout

  pub watched : ℕ → Bool → Progress → App → App
  watched zero true p (send m app) = on_timeout (note m p)
  watched zero _ p _ = on_timeout p
  watched (suc n) in_send p done = done
  watched (suc n) in_send p (raise timeout_error) = on_timeout p
  watched (suc n) in_send p (raise request_too_large) = raise request_too_large
  watched (suc n) in_send p (raise (other e)) = raise (other e)
  watched (suc n) in_send p (receive k) = receive (λ d. watched n in_send p (k d))
  watched (suc n) in_send p (send m app) = send m (watched n in_send (note m p) app)

unfoldable pub limit_time : Responses → ℕ → ℕ → Bool → Application → Application
unfolding watched on_timeout gateway_timeout note
limit_time r timeout n in_send app scope =
    if is_http scope
    then watched r timeout scope n in_send
        (record { response_started = false; response_completed = false }) (app scope)
    else app scope
