-- ===== src/Auth/Dependencies.antt =====
-- src/app/auth/dependencies.py. The outcome of `authenticate_token` on the credentials is an argument, as
-- FastAPI passes the result of each dependency to the next.
use Prim.Native.String.{◌++◌}
use fastapi_chassis.Base.{String, not, Option, none, some, List, [], ◌∷◌, is_in, keep}
use fastapi_chassis.Outcome.{Outcome, returned, raised, authentication_error, http_exception, ◌>>=◌}
use fastapi_chassis.Auth.Claims.{Principal}

abbrev bearer : List (String × String)
bearer = ("WWW-Authenticate", "Bearer") ∷ []

abbrev pub optional : Outcome Principal → Outcome (Option Principal)
optional (returned principal) = returned (some principal)
optional (raised (authentication_error _)) =
    raised (http_exception 401 "Invalid bearer token" bearer)
optional (raised e) = raised e

-- `none`: there are no credentials
unfoldable pub get_optional_principal : Option (Outcome Principal) → Outcome (Option Principal)
get_optional_principal none = returned none
get_optional_principal (some authenticated) = optional authenticated

unfoldable pub get_current_principal : Option Principal → Outcome Principal
get_current_principal none = raised (http_exception 401 "Missing bearer token" bearer)
get_current_principal (some principal) = returned principal

-- `", ".join(names)`
unfoldable pub join_names : List String → String
join_names [] = ""
join_names (n ∷ []) = n
join_names (n ∷ m ∷ ns) = n ++ (", " ++ join_names (m ∷ ns))

-- `[name for name in required if name not in granted]`
unfoldable pub missing : List String → List String → List String
missing required granted = keep (λ name. not (is_in name granted)) required

abbrev pub unless_missing : String → List String → Principal → Outcome Principal
unless_missing what [] principal = returned principal
unless_missing what (m ∷ ms) principal =
    raised (http_exception 403 (what ++ join_names (m ∷ ms)) [])

unfoldable pub require_scopes : List String → Principal → Outcome Principal
unfolding missing
require_scopes required_scopes principal =
    unless_missing "Missing required scopes: " (missing required_scopes principal.scopes) principal

unfoldable pub require_roles : List String → Principal → Outcome Principal
unfolding missing
require_roles required_roles principal =
    unless_missing "Missing required roles: " (missing required_roles principal.roles) principal

-- the chain of dependencies that FastAPI resolves for an endpoint, up to its own requirement
unfoldable pub authorize :
    (Principal → Outcome Principal) → Option (Outcome Principal) → Outcome Principal
authorize requirement credentials =
    get_optional_principal credentials >>= get_current_principal >>= requirement
