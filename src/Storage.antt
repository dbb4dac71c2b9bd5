-- ===== src/Storage.antt =====
-- services/storage/: metric batches from Kafka into ClickHouse.
pub mod Inserts
pub mod Consumer
pub mod Loop
pub mod ClickHouse
pub mod Ddl
pub mod Health
pub mod Main
