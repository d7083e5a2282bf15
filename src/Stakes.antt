-- ===== src/Stakes.antt =====
-- Stakes (backend/internal/stakes): what a goal's owner forfeits when the buddy declares it.
pub mod Repository
pub mod Service
pub mod Changes
pub mod Consistency
mod Examples
