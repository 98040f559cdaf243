-- ===== src/S3.antt =====
-- internal/s3: the operations of the S3 API and the classifier of requests.
pub mod Op
pub mod Rules
pub mod Classify
pub mod Safe
