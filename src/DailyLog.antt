-- ===== src/DailyLog.antt =====
-- The daily log and its streak (backend/internal/dailylog).
pub mod Calendar
pub mod Rules
pub mod Repository
pub mod Service
pub mod Soundness
pub mod Requests
pub mod Validity
pub mod Counting
pub mod Repeats
pub mod Audit
pub mod Freezes
mod Examples
