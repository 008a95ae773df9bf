-- ===== src/Database.antt =====
-- The database of infrastructure/db/base.py: its rows, its tables, and the constraints that the
-- schema declares. A table is the list of its rows, newest first; the engine's order of the rows of
-- a statement with no `order_by` is that of the list, and theorems hold for every list.
mod Schema
mod Detail
mod Constraints
pub use Schema.*
pub use Detail.*
pub use Constraints.*
