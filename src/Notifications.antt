-- ===== src/Notifications.antt =====
-- Nudges: throttled messages for domain events (backend/internal/notifications).
pub mod Repository
pub mod Dispatcher
pub mod Engine
pub mod Throttle
mod Examples
