-- ===== src/Tracker.antt =====
-- The trackers that give the objects of a race or a ranch their object identifiers.
pub mod Race
pub mod Ranch
mod Examples
