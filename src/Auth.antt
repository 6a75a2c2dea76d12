-- ===== src/Auth.antt =====
-- src/app/auth: service.py, dependencies.py and models.py.
pub mod Claims
pub mod Jwks
pub mod Freshness
pub mod Refusal
pub mod Service
pub mod Ready
pub mod Dependencies
pub mod Access
mod Tests
pub mod Renewal
pub mod Rotation
pub mod Errors
