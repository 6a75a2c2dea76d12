-- ===== src/Middleware/BodySize/Order.antt =====
-- The body limit keeps the order of a response.
use fastapi_chassis.Base.{ℕ, String, Bool, Option, none, some, Bool-cases, inl, inr}
use fastapi_chassis.Base.Text.{parse_int}
use fastapi_chassis.Asgi.{
  Scope, is_http, request_too_large, timeout_error, other, App, done, raise, receive, send,
  Application,
}
use fastapi_chassis.Asgi.Protocol.{Phase, idle, after, Speaks, Allowed_map}
use fastapi_chassis.Starlette.{Responses, respond-Speaks}
use fastapi_chassis.Middleware.BodySize.{
  total_after, receive_wrapper, on_failure, limited, content_length, body_size_limit,
  too_large_response, bad_length_response, admit, checked, exceeds,
}

module _ (r : Responses) (limit : ℕ) where
  limited-Speaks :
      (total : ℕ) (p : Phase) (app : App) → Speaks p app → Speaks p (limited r limit total app)
  unfolding limited
  limited-Speaks total p done h = h
  limited-Speaks total p (raise request_too_large) h =
      unfold on_failure too_large_response in rw h (respond-Speaks r 413 _ _)
  limited-Speaks total p (raise timeout_error) h = unfold on_failure in tt
  limited-Speaks total p (raise (other n)) h = unfold on_failure in tt
  limited-Speaks total p (receive k) h = λ d.
      limited-Speaks (total_after total d) p (k (receive_wrapper limit total d))
        (h (receive_wrapper limit total d))
  limited-Speaks total p (send m app) h =
      Allowed_map (after p m) (λ q. limited-Speaks total q app) h

  admit-Speaks :
      (o : Option String) (app : App) → Speaks idle app → Speaks idle (admit r limit o app)
  unfolding admit
  admit-Speaks none app h = limited-Speaks 0 idle app h
  admit-Speaks (some v) app h = go (parse_int v)
    where
      go : (o : Option (Bool × ℕ)) → Speaks idle (checked r limit o app)
      go none = unfold checked bad_length_response in respond-Speaks r 400 _ _
      go (some n) = elim (Bool-cases (exceeds limit n)) [
        | inl over ↦ unfold checked too_large_response in rw over (respond-Speaks r 413 _ _)
        | inr fits ↦ unfold checked in rw fits (limited-Speaks 0 idle app h)
      ]

  -- An application that keeps the order of a response keeps it under the body limit.
  pub body_size_limit-Speaks :
      (app : Application) (scope : Scope)
      → Speaks idle (app scope)
      → Speaks idle (body_size_limit r limit app scope)
  unfolding body_size_limit
  body_size_limit-Speaks app scope h = elim (Bool-cases (is_http scope)) [
    | inl http ↦ rw http (admit-Speaks (content_length scope.headers) (app scope) h)
    | inr not_http ↦ rw not_http h
  ]
