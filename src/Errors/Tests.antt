-- ===== src/Errors/Tests.antt =====
-- A use of the theorem on validation errors at a concrete input.
use fastapi_chassis.Base.{none, some, [], ◌∷◌}
use fastapi_chassis.Starlette.{text}
use fastapi_chassis.Errors.{
  sanitize_validation_errors, Sanitized, sanitize_validation_errors-Sanitized,
}

sanitize_validation_errors-Sanitized_example :
    Sanitized (none ∷ some (("type", text "int_parsing") ∷ ("input", text "secret") ∷ []) ∷ []) (
      sanitize_validation_errors
        (none ∷ some (("type", text "int_parsing") ∷ ("input", text "secret") ∷ []) ∷ []))
sanitize_validation_errors-Sanitized_example =
    sanitize_validation_errors-Sanitized
      (none ∷ some (("type", text "int_parsing") ∷ ("input", text "secret") ∷ []) ∷ [])
