-- ===== src/Store.antt =====
-- internal/store: the tables and the two storage engines.
pub mod Error
pub mod Codec
pub mod Storage
pub mod Engine
pub mod Opening
pub mod Quiet
pub mod Waiting
pub mod Stored
pub mod Claim
pub mod Db
pub mod Sqlite
pub mod Postgres
pub mod Worker
