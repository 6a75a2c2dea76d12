-- ===== src/Middleware/BodySize.antt =====
-- src/app/middleware/body_size.py
pub mod Limit
pub mod Order
use Prim.Native.String.{◌++◌}
use fastapi_chassis.Base.{
  ℕ, ◌+◌, String, Bool, true, false, not, ◌&&◌, Option, none, some, List, [], ◌∷◌, ltb, ◌==◌,
  if◌then◌else◌, length, or_else,
}
use fastapi_chassis.Base.Text.{parse_int, print_nat}
use fastapi_chassis.Asgi.{
  Scope, is_http, Headers, Bytes, Received, request, disconnect, Delivery, message, failed, Failure,
  request_too_large, timeout_error, other, App, done, raise, receive, send, Application,
}
use fastapi_chassis.Starlette.{Json, text, object, field, end, Responses, respond}

pub error_content : String → String → Json
error_content kind detail = object (field "error" (text kind) (field "detail" (text detail) end))

-- `dict(scope.get("headers", [])).get(b"content-length")`: of equal names the last counts
pub content_length : Headers → Option String
content_length [] = none
content_length ((k, v) ∷ hs) =
    let rest = content_length hs in if k == "content-length" then some (or_else rest v) else rest

-- `total_received` after a delivery
pub total_after : ℕ → Delivery → ℕ
total_after total (message (request bytes more)) = total + length bytes
total_after total (message disconnect) = total
total_after total (failed e) = total

module _ (max_request_body_bytes : ℕ) where
  -- `receive_wrapper`: what the inner application gets for a delivery
  pub receive_wrapper : ℕ → Delivery → Delivery
  unfolding total_after
  receive_wrapper total (message (request bytes more)) =
      if ltb max_request_body_bytes (total + length bytes)
      then failed request_too_large
      else message (request bytes more)
  receive_wrapper total (message disconnect) = message disconnect
  receive_wrapper total (failed e) = failed e

  -- `parsed_content_length > self.max_request_body_bytes`
  pub exceeds : Bool × ℕ → Bool
  exceeds (negative, n) = not negative && ltb max_request_body_bytes n

module _ (r : Responses) (max_request_body_bytes : ℕ) where
  pub too_large_response : App
  too_large_response =
      respond r 413
        (error_content "request_too_large"
          ("Request body exceeds " ++ (print_nat max_request_body_bytes ++ " byte limit")))
        []

  pub bad_length_response : App
  bad_length_response =
      respond r 400
        (error_content "invalid_request" "Content-Length header must be a valid integer") []

  -- `except RequestTooLargeError`
  pub on_failure : Failure → App
  on_failure request_too_large = too_large_response
  on_failure timeout_error = raise timeout_error
  on_failure (other n) = raise (other n)

  -- the inner application under the wrapped `receive`, after `total` bytes
  pub limited : ℕ → App → App
  limited total done = done
  limited total (raise e) = on_failure e
  limited total (receive k) =
      receive
        (λ d. limited (total_after total d) (k (receive_wrapper max_request_body_bytes total d)))
  limited total (send m app) = send m (limited total app)

  pub checked : Option (Bool × ℕ) → App → App
  checked none app = bad_length_response
  checked (some n) app =
      if exceeds max_request_body_bytes n then too_large_response else limited 0 app

  pub admit : Option String → App → App
  admit none app = limited 0 app
  admit (some value) app = checked (parse_int value) app

  unfoldable pub body_size_limit : Application → Application
  unfolding admit checked exceeds content_length limited on_failure receive_wrapper total_after
      too_large_response bad_length_response error_content
  body_size_limit app scope =
      if is_http scope then admit (content_length scope.headers) (app scope) else app scope
