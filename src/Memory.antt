-- ===== src/Memory.antt =====
-- What the bot remembers of a chat or of a thread in one: the contexts of adapters/telegram/context.py
-- and the turns and pending confirmations of infrastructure/memory/thread_memory.py.
mod Context
mod Thread
pub mod Rows
pub mod Opened
pub mod Turns
pub mod Pending
pub mod Bounds
pub mod Frames
pub use Context.*
pub use Thread.*
unfoldable pub use Context.{
  context_key, parse_context_key, get_or_create_context, update_context, clear_context,
}
unfoldable pub use Thread.{
  store_pending_confirmation, clear_pending_confirmation, get_pending_confirmation, save_turn,
  load_turns,
}
