-- ===== src/Comptime.antt =====
-- toolchain/check/comptime_eval.cpp and .h: the interpreter that evaluates `comptime` expressions
-- while a file is checked.
pub mod Tree
pub mod Value
pub mod Int64
pub mod State
pub mod Operators
pub mod Expr
pub mod Call
pub mod Block
pub mod Stmt
pub mod Run
pub mod Lower
mod Steps
mod Keeps
mod Env
mod Arith
mod Integers
mod Caller
mod Traps
pub mod Sample
mod Tests
