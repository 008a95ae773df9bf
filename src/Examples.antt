-- ===== src/Examples.antt =====
-- The theorems at concrete inputs, and tests of the definitions.
mod Fixtures
mod Schedules
mod Rules
mod Events
mod Cycles
mod Users
mod Cleanup
mod Places
mod Chats
mod Tools
mod Formulas
mod Weather
