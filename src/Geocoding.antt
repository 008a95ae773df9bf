-- ===== src/Geocoding.antt =====
-- infrastructure/locationiq_candidates.py
pub mod Candidates
pub mod Score
pub mod Best
