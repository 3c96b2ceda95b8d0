-- ===== src/Repository.antt =====
-- shared/src/repository.rs: what the relay stores, in PostgreSQL and in Redis.
pub mod Offline
pub mod Presence
pub mod PubSub
