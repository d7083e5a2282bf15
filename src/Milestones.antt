-- ===== src/Milestones.antt =====
-- Milestones of a goal (backend/internal/milestones).
pub mod Repository
pub mod Service
pub mod Changes
pub mod Outcome
pub mod Stamps
pub mod Order
pub mod Reopening
mod Examples
