-- ===== src/Middleware.antt =====
-- src/app/middleware: one module for each middleware class. A middleware takes its settings and the
-- inner application, and is an application.
pub mod BodySize
pub mod Timeout
pub mod Headers
pub mod RequestId
pub mod RequestLogging
pub mod SecurityHeaders
mod Tests
mod HeaderTests
mod LoggingTests
