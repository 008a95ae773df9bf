-- ===== src/Prelude/Lists.antt =====
-- Lists as tables: the statements, sorting, and their laws.
mod Order
mod Base
mod Rows
mod Single
pub use Order.*
pub use Base.*
pub use Rows.*
pub use Single.*
