-- ===== src/Tests.antt =====
-- Runs of the modelled code, and the theorems at concrete inputs.
pub mod Authorization
pub mod Edits
pub mod Logs
pub mod Locks
pub mod Tokens
pub mod Accounts
pub mod Events
pub mod Workers
