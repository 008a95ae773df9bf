-- ===== src/Toolbox.antt =====
-- llm/tools/rules_tools.py: the tools with which the agent proposes, confirms and cancels changes of a
-- user's notifications. A tool never changes a rule; a confirmation does, for what was proposed.
mod Model
pub mod Safety
pub mod Owners
pub mod Calls
pub mod Proposal
mod Propose
mod Plan
mod Confirm
pub use Model.*
pub use Propose.*
pub use Plan.*
pub use Confirm.*
unfoldable pub use Propose.{
  execute_propose, delete_notification, list_notification_rules, resolve_location,
}
unfoldable pub use Plan.{cron_schedule_uses_fixed_date_range, schedule_notification}
unfoldable pub use Confirm.{execute_confirm, execute_cancel}
