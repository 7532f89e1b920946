-- ===== src/Tests.antt =====
-- Each theorem at a concrete input, and runs of the operations.
pub mod Broker
pub mod Publishing
pub mod Events
pub mod Store
pub mod Pipeline
pub mod Consume
pub mod Middleware
pub mod Config
pub mod Metrics
pub mod Api
pub mod Panics
pub mod Server
pub mod Scheduler
