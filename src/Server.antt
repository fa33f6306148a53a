-- ===== src/Server.antt =====
-- src/server: the parts of a worker that stand between its clients and the tables.
pub mod RateLimiter
pub mod ReplayGuard
pub mod OfflineMerger
pub mod Sessions
pub mod DocumentCache
pub mod Handler
pub mod Compactor
pub mod Tests
