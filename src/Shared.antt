-- ===== src/Shared.antt =====
-- shared/: code that every service imports.
pub mod Retry
pub mod Metrics
pub mod Redaction
pub mod Logging
pub mod Topics
pub mod Environments
pub mod RedisKeys
