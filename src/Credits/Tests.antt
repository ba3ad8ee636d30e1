-- ===== src/Credits/Tests.antt =====
-- Concrete services and documents, and the theorems applied to them.
pub mod Fixture
mod Commits
mod Plans
mod Messages
mod Numbers
