-- ===== src/Infrastructure.antt =====
-- The adapters of app/infrastructure: what they make of the packages that they call.
pub mod Database
pub mod Publisher
pub mod RedisClient
