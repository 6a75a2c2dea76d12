-- ===== src/Asgi/Path.antt =====
-- src/app/utils/http.py: the request path without the query string.
use Prim.Native.String.{◌++◌}
use fastapi_chassis.Base.{String, Option, none, some, if◌then◌else◌}
use fastapi_chassis.Base.Text.{is_true}
use fastapi_chassis.Asgi.{Scope}

-- `str(value or default)` of a scope's text
abbrev true_or : Option String → String → String
true_or none default = default
true_or (some s) default = if is_true s then s else default

unfoldable pub get_sanitized_scope_path : Scope → String
get_sanitized_scope_path scope = true_or scope.root_path "" ++ true_or scope.path "/"
