-- ===== src/Starlette.antt =====
-- What the program uses of Starlette's JSONResponse. Its content is a JSON object; how it is encoded
-- and which headers it gets beside the given ones are parameters.
use fastapi_chassis.Base.{ℕ, String, Bool, false, Option, some, ◌≡◌, refl, ◌==◌, if◌then◌else◌}
use fastapi_chassis.Base.Text.{lower}
use fastapi_chassis.Asgi.Protocol.{Speaks, idle, after}
use fastapi_chassis.Asgi.{Bytes, Headers, start, body, App, done, send}

-- The JSON values that the responses of the program are built from.
mutual
  pub data Json : Type 0 where
    null : Json
    flag : Bool → Json
    num : ℕ → Json
    text : String → Json
    array : Items → Json
    object : Fields → Json

  pub data Items : Type 0 where
    nil : Items
    item : Json → Items → Items

  pub data Fields : Type 0 where
    end : Fields
    field : String → Json → Fields → Fields

pub record Responses : Type 0 where
  pub render : Json → Bytes
  pub response_headers : Json → Headers → Headers

-- `await JSONResponse(status_code=status, content=content, headers=headers)(scope, receive, send)`: an
-- ASGI response is its start and one body.
unfoldable pub respond : Responses → ℕ → Json → Headers → App
respond r status content headers =
    send (start status (r.response_headers content headers))
      (send (body (r.render content) false) done)

-- A JSON response is a whole response.
pub respond-Speaks :
    (r : Responses) (status : ℕ) (content : Json) (headers : Headers)
    → Speaks idle (respond r status content headers)
unfolding respond after
respond-Speaks r status content headers = refl

-- `Headers(raw=hs).get(key)` and `MutableHeaders(raw=hs)[key] = value`: names are compared without
-- regard to case.
pub record HeaderMaps : Type 0 where
  pub get_header : String → Headers → Option String
  pub set_header : String → String → Headers → Headers
  pub get-set :
      (j k v : String) (hs : Headers)
      → get_header j (set_header k v hs) ≡ (if lower k == lower j then some v else get_header j hs)
