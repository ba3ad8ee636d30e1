-- ===== src/Credits/EventStore.antt =====
-- src/credits/services/credit-event-store.service.ts
pub mod Validation
pub mod Measurement
pub mod Processing
