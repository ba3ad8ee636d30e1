-- ===== src/Onboarding/Tests.antt =====
-- Onboardings over services that all answer.
mod Plans
mod Fixture
mod Runs
