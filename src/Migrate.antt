-- ===== src/Migrate.antt =====
-- internal/migrate: where a request goes while its bucket moves, and the ids of uploads.
pub mod Class
pub mod Hash
pub mod Route
pub mod UploadId
