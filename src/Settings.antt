-- ===== src/Settings.antt =====
-- src/app/settings.py
pub mod Result
pub mod Fields
pub mod Defaults
pub mod Constraints
pub mod Resolve
pub mod Validate
pub mod KeyMaterial
pub mod Accepted
pub mod Idempotent
pub mod Urls
pub mod Tests
