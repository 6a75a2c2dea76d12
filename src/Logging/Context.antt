-- ===== src/Logging/Context.antt =====
-- src/app/log_config/request_context.py: two ContextVars. A token holds the value that was there before;
-- a variable that was never set is `none`.
use fastapi_chassis.Base.{String, Option, none, some, or_else}

pub record Context : Type 0 where
  pub request_id : Option String
  pub correlation_id : Option String

abbrev pub initial : Context
initial = record { request_id = none; correlation_id = none }

unfoldable pub get_request_id : Context → String
get_request_id c = or_else c.request_id "-"

unfoldable pub get_correlation_id : Context → String
get_correlation_id c = or_else c.correlation_id "-"

-- the value of each variable before it was set
abbrev pub RequestContextTokens : Type 0
RequestContextTokens = Option String × Option String

unfoldable pub set_request_context : String → String → Context → Context × RequestContextTokens
set_request_context request_id correlation_id c = (
  record { request_id = some request_id; correlation_id = some correlation_id },
  (c.request_id, c.correlation_id),
)

unfoldable pub reset_request_context : RequestContextTokens → Context → Context
reset_request_context (request_id_token, correlation_id_token) c = record {
  request_id = request_id_token;
  correlation_id = correlation_id_token;
}
