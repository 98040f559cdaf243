-- ===== src/Proxy.antt =====
-- What internal/proxy answers by itself: the listing of a bucket on two clusters.
pub mod Listing
