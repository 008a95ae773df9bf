-- ===== src/Notifications.antt =====
-- domain/notifications: the deduplication of notifications, their events, and the proofs of both.
pub mod Dedupe
pub mod Suppression
pub mod Events
pub mod Claims
pub mod Delivered
pub mod Unique
pub mod Race
