-- ===== src/Directory.antt =====
-- internal/directory: which cluster and bucket holds the keys of each client bucket.
pub mod Types
pub mod Owners
pub mod Scopes
pub mod Guards
pub mod Transition
pub mod Settle
pub mod Moves
pub mod Start
pub mod Schema
pub mod File
pub mod Stamp
pub mod Identifiers
pub mod Validate
