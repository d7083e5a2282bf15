-- ===== src/CheckIns.antt =====
-- Check-ins (backend/internal/checkins): proof that a goal's owner submits and others review.
pub mod Domain
pub mod Mime
pub mod Repository
pub mod Service
pub mod Requests
pub mod Change
pub mod Outcome
pub mod Refinement
pub mod Lifecycle
pub mod Limits
pub mod Reviewers
pub mod Links
pub mod Files
pub mod Results
pub mod Progress
mod Examples
