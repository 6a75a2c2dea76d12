-- ===== src/Logging.antt =====
-- The logging of the program: the request's context (src/app/log_config/request_context.py), the filters
-- (src/app/log_config/filters.py) and the set-up (src/app/logging_setup.py and
-- `setup_logging` of src/app/app_builder.py).
pub mod Context
pub mod Filters
pub mod Scopes
pub mod Setup
mod Tests
