-- ===== src/Credits.antt =====
-- src/credits: credit plans, their grants, and the lifecycle events that use them up.
pub mod Lifecycle
pub mod Tests
pub mod Life
pub mod Schema
pub mod Wallet
pub mod Meters
pub mod Robust
pub mod Repository
pub mod Event
pub mod Thresholds
pub mod Notification
pub mod Command
pub mod Service
pub mod SsiResults
pub mod EventStore
