-- ===== src/Rules.antt =====
-- domain/rules: the models, the fingerprint of a notification context, the rule service, and its
-- proofs.
pub mod Model
pub mod Context
pub mod Rows
pub mod Service
pub mod Invariant
pub mod Owners
pub mod Queries
pub mod Matching
pub mod Changes
