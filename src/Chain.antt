-- ===== src/Chain.antt =====
-- How the services fit together: the records that the processing service writes against what the
-- storage and the cache service make of them.
pub mod Tests
pub mod Records
pub mod Events
pub mod RoundTrip
pub mod Unary
