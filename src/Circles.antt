-- ===== src/Circles.antt =====
-- Circles, their members, invitations and seasons (backend/internal/circles).
pub mod Domain
pub mod Tables
pub mod Repository
pub mod Seasons
pub mod Windows
pub mod Snapshots
pub mod Standings
pub mod Service
pub mod Weeks
pub mod Ranking
pub mod Change
pub mod Parts
pub mod MemberCalls
pub mod SeasonCalls
pub mod Outcome
pub mod Links
pub mod Owners
pub mod Soundness
pub mod Limits
pub mod Lapse
mod Examples
