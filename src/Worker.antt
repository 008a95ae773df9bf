-- ===== src/Worker.antt =====
-- infrastructure/worker/rule_evaluator.py: the worker that evaluates the rules and delivers their
-- notifications, and its proofs.
pub mod Model
pub mod Claim
pub mod Finish
pub mod Evaluate
pub mod Deliver
pub mod Cycle
pub mod Delivery
pub mod Evaluation
pub mod Passes
pub mod Posts
pub mod Once
pub mod Results
pub mod Slots
