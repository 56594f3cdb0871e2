-- ===== src/Soar.antt =====
-- server/src/zaqorincore_server/soar: alerts are delivered to external backends, with filters,
-- retries, cooldowns and a dead-letter store. Times are whole milliseconds.
pub mod Config
pub mod Load
pub mod Usable
pub mod Queue
pub mod Delivery
pub mod Retries
pub mod Endings
pub mod Success
pub mod Loop
pub mod Overflow
pub mod Newest
pub mod Polled
pub mod Exceptions
mod Tests
mod LoadTests
