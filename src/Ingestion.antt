-- ===== src/Ingestion.antt =====
-- The ingestion service, services/ingestion/src.
pub mod Service
pub mod Producer
pub mod Topics
pub mod Events
