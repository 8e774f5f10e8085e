-- ===== src/Comptime/Stmt.antt =====
-- `EvalStmt` of toolchain/check/comptime_eval.cpp, and what its kinds of statements do.
pub mod Assign
pub mod Simple
pub mod Loops
