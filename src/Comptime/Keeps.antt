-- ===== src/Comptime/Keeps.antt =====
-- A relation between the state before a method of `ComptimeEvaluator` and the state after it, and
-- the rules by which a composed method keeps it.
mod Calls
mod Statements
mod Loops
mod Rules
pub mod Run
pub mod Scopes
pub mod Rounds
pub use Rules.*
