-- ===== src/Providers.antt =====
-- adapters/imgw/, domain/snapshot_comparison.py and the repositories of warnings and observations.
pub mod Request
pub mod Retries
pub mod Warnings
pub mod Archive
pub mod Saved
pub mod Stations
pub mod Synop
pub mod Nearby
pub mod Comparison
pub mod Changes
pub mod Observations
