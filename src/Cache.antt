-- ===== src/Cache.antt =====
-- The cache service, services/cache/src.
pub mod Worker
pub mod Index
pub mod Redis
pub mod Repository
pub mod Parser
pub mod Service
pub mod System
pub mod Connect
pub mod Main
pub mod Api
pub mod Logger
