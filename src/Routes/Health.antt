-- ===== src/Routes/Health.antt =====
-- src/app/routes/health.py: the handlers, and the routes of `create_health_router`. What a handler reads of
-- the application is an argument; a route is a path with the name of its handler.
use fastapi_chassis.Base.{
  ℕ, String, Bool, Option, none, some, List, [], ◌∷◌, ◌++◌, all, if◌then◌else◌,
}
use fastapi_chassis.Base.Dict.{Dict, put}
use fastapi_chassis.Outcome.{returned, Task, next}
use fastapi_chassis.Starlette.{
  Json, null, flag, text, object, array, Items, nil, item, Fields, end, field,
}
use fastapi_chassis.Settings.Fields.{Settings}
use fastapi_chassis.Readiness.{ReadinessCheckResult, ReadinessRegistry, as_payload, run}

-- A response of a handler: its status and its JSON content.
pub record JsonResponse : Type 0 where
  pub status_code : ℕ
  pub content : Json

-- the attributes of the FastAPI application that `root` reports
pub record AppAttributes : Type 0 where
  pub title : String
  pub version : String
  pub docs_url : Option String
  pub redoc_url : Option String
  pub openapi_url : Option String

pub optional_text : Option String → Json
optional_text none = null
optional_text (some s) = text s

pub root : AppAttributes → Json
root app = object (
    field "status" (text "ok") (
      field "app" (text app.title) (
        field "version" (text app.version) (
          field "docs_url" (optional_text app.docs_url) (
            field "redoc_url" (optional_text app.redoc_url)
              (field "openapi_url" (optional_text app.openapi_url) end))))))

pub health_check : Json
health_check = object (field "status" (text "healthy") end)

-- `{result.name: result.as_payload(...) for result in results}`
unfoldable pub payloads : (ℕ → ℕ) → Bool → Dict Json → List ReadinessCheckResult → Dict Json
payloads round details checks [] = checks
payloads round details checks (r ∷ rs) =
    payloads round details (put r.name (as_payload round details r) checks) rs

pub dict_fields : Dict Json → Fields
dict_fields [] = end
dict_fields ((k, v) ∷ d) = field k v (dict_fields d)

unfoldable pub readiness_response : (ℕ → ℕ) → Bool → List ReadinessCheckResult → JsonResponse
unfolding payloads dict_fields
readiness_response round details results =
    let all_healthy = all (λ r. r.is_healthy) results in
    record {
      status_code = if all_healthy then 200 else 503;
      content = object (
          field "status" (text (if all_healthy then "ready" else "not_ready"))
            (field "checks" (object (dict_fields (payloads round details [] results))) end));
    }

unfoldable pub readiness_check :
    {S : Type 0} → (S → S × ℕ) → (ℕ → ℕ) → Bool → ReadinessRegistry S → Task S JsonResponse
unfolding readiness_response
readiness_check perf_counter round details registry s =
    next (run perf_counter registry s)
      (λ results t. (t, returned (readiness_response round details results)))

-- `Response(status_code=204)`
pub favicon : ℕ × Option Json
favicon = (204, none)

pub app_info : Settings → Json
app_info s = object (
    field "app" (text s.app_name)
      (field "version" (text s.app_version) (field "debug" (flag s.debug) end)))

-- A route of the application; a mounted application has no methods.
pub record Route : Type 0 where
  pub route_path : Option String
  pub route_name : String
  pub methods : List String

pub text_items : List String → Items
text_items [] = nil
text_items (s ∷ ss) = item (text s) (text_items ss)

-- one turn of the comprehension: a route with no path is left out
abbrev listed_route : List String → String → Option String → Items → Items
listed_route methods name none rest = rest
listed_route methods name (some path) rest =
    item
      (object (
        field "path" (text path)
          (field "name" (text name) (field "methods" (array (text_items methods)) end))))
      rest

-- `sorted` is a parameter.
pub endpoint_items : (List String → List String) → List Route → Items
endpoint_items sorted [] = nil
endpoint_items sorted (r ∷ rs) =
    listed_route (sorted r.methods) r.route_name r.route_path (endpoint_items sorted rs)

pub list_endpoints : (List String → List String) → List Route → JsonResponse
list_endpoints sorted routes = record {
  status_code = 200;
  content = object (field "endpoints" (array (endpoint_items sorted routes)) end);
}

-- The handlers by name.
pub data Handler : Type 0 where
  root_handler health_handler readiness_handler favicon_handler info_handler endpoints_handler :
      Handler

unfoldable pub create_health_router : Settings → List (String × Handler)
create_health_router s =
    ("/", root_handler)
    ∷ (s.health_check_path, health_handler)
    ∷ (s.readiness_check_path, readiness_handler)
    ∷ ("/favicon.ico", favicon_handler)
    ∷ ((if s.info_endpoint_enabled then ("/info", info_handler) ∷ [] else [])
        ++ (if s.endpoints_listing_enabled then ("/endpoints", endpoints_handler) ∷ [] else []))
