-- ===== src/Processing.antt =====
-- The processing service, services/processing/src.
pub mod Configuration
pub mod Coordinator
pub mod Settings
pub mod Tables
pub mod Schemas
pub mod Jobs
pub mod Connectors
