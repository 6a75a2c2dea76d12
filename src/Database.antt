-- ===== src/Database.antt =====
-- src/app/db/engine.py and src/app/db/session.py. SQLAlchemy and pathlib are parameters: how the engine is made
-- and what a path is are not looked into, only what they are given.
pub mod Engine
pub mod Kinds
pub mod Session
mod Tests
