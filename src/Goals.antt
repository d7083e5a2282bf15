-- ===== src/Goals.antt =====
-- Goals, pacts and invites (backend/internal/goals).
mod Domain
pub mod Tables
pub mod Repository
pub mod Queries
pub mod Service
pub mod Refine
pub mod Requests
pub mod Frame
pub mod Calls
pub mod Circles
pub mod Occupied
pub mod RateLimit
pub mod Answers
pub mod Steps
pub mod Acceptance
pub mod Consistency
pub mod Agreement
pub mod Accepting
pub mod Histories
pub use Domain.*
mod Examples
