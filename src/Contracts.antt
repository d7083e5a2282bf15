-- ===== src/Contracts.antt =====
-- Proof contracts (backend/internal/contracts): a promise with a due date.
pub mod Domain
pub mod Repository
pub mod Service
pub mod Changes
pub mod Lifecycle
pub mod Closed
pub mod Listing
mod Examples
