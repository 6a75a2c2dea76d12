-- ===== src/Routes.antt =====
-- src/app/routes: health.py and api.py.
pub mod Health
pub mod Ready
pub mod Api
mod Tests
