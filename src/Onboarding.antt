-- ===== src/Onboarding.antt =====
-- The onboarding of customers (customer-onboarding/).
mod Tests
pub mod Request
pub mod Process
pub mod Steps
pub mod Locals
pub mod Calls
pub mod Desk
pub mod Plan
pub mod Schema
