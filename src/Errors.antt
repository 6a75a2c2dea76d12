-- ===== src/Errors.antt =====
-- src/app/errors/handlers.py: the three exception handlers, and the sanitizing of validation errors. A
-- validation error is a dictionary, or `none` for anything else.
mod Tests
use fastapi_chassis.Base.{
  ℕ, String, Bool, true, false, Option, none, some, List, [], ◌∷◌, map, All, ◌==◌, eq_iff,
  if◌then◌else◌, ◌≡◌, refl, arith, Bool-cases, inl, inr, ◌⊎◌,
}
use fastapi_chassis.Base.Dict.{Dict, lookup}
use fastapi_chassis.Asgi.{Scope, Headers, App}
use fastapi_chassis.Asgi.Path.{get_sanitized_scope_path}
use fastapi_chassis.Starlette.{
  Json, text, array, object, Items, nil, item, Fields, end, field, Responses, respond,
}

-- `{key: value for key, value in error.items() if key != "input"}`
unfoldable pub without_input : Dict Json → Dict Json
without_input [] = []
without_input ((k, v) ∷ d) =
    let rest = without_input d in if k == "input" then rest else (k, v) ∷ rest

unfoldable pub sanitize_validation_errors : List (Option (Dict Json)) → List (Dict Json)
unfolding without_input
sanitize_validation_errors [] = []
sanitize_validation_errors (none ∷ errors) = sanitize_validation_errors errors
sanitize_validation_errors (some error ∷ errors) =
    without_input error ∷ sanitize_validation_errors errors

dict_json : Dict Json → Fields
dict_json [] = end
dict_json ((k, v) ∷ d) = field k v (dict_json d)

errors_json : List (Dict Json) → Items
errors_json [] = nil
errors_json (e ∷ es) = item (object (dict_json e)) (errors_json es)

-- the content that the three handlers share
abbrev pub error_body : String → Json → Scope → Json
error_body error detail scope = object (
    field "error" (text error)
      (field "detail" detail (field "path" (text (get_sanitized_scope_path scope)) end)))

module _ (r : Responses) where
  unfoldable pub validation_exception_handler : Scope → List (Option (Dict Json)) → App
  unfolding sanitize_validation_errors errors_json dict_json
  validation_exception_handler scope errors =
      respond r 422
        (error_body "validation_error" (array (errors_json (sanitize_validation_errors errors)))
          scope)
        []

  unfoldable pub http_exception_handler : Scope → ℕ → Json → Headers → App
  http_exception_handler scope status_code detail headers =
      respond r status_code (error_body "http_error" detail scope) headers

  -- The exception is not read but for the log.
  unfoldable pub unhandled_exception_handler : Scope → App
  unhandled_exception_handler scope =
      respond r 500 (error_body "internal_error" (text "An unexpected error occurred") scope) []

lookup-without_input :
    (k : String) (d : Dict Json)
    → lookup k (without_input d) ≡ (if k == "input" then none else lookup k d)
unfolding without_input lookup
lookup-without_input k [] = ground arith
lookup-without_input k ((j, v) ∷ d) =
    ground (arith, lookup-without_input k d, eq_iff j "input", eq_iff j k, eq_iff k "input")

-- The sanitized errors, one for each error that is a dictionary and in the same order.
abbrev pub Sanitized : List (Option (Dict Json)) → List (Dict Json) → Type 0
Sanitized [] [] = Unit
Sanitized [] (_ ∷ _) = ⊥
Sanitized (none ∷ errors) es = Sanitized errors es
Sanitized (some d ∷ errors) [] = ⊥
Sanitized (some d ∷ errors) (e ∷ es) =
    ((k : String) → lookup k e ≡ (if k == "input" then none else lookup k d)) × Sanitized errors es

-- Validation errors lose the rejected value and nothing else: the result has one dictionary for each
-- dictionary among the errors, in the same order, with no key "input" and every other key as it was.
pub sanitize_validation_errors-Sanitized :
    (errors : List (Option (Dict Json))) → Sanitized errors (sanitize_validation_errors errors)
unfolding sanitize_validation_errors
sanitize_validation_errors-Sanitized [] = tt
sanitize_validation_errors-Sanitized (none ∷ errors) = sanitize_validation_errors-Sanitized errors
sanitize_validation_errors-Sanitized (some d ∷ errors) =
    (λ k. lookup-without_input k d, sanitize_validation_errors-Sanitized errors)
