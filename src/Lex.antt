-- ===== src/Lex.antt =====
-- The lexer: toolchain/lex.
pub mod Characters
pub mod Tokens
pub mod State
pub mod Words
pub mod Numbers
pub mod Operators
pub mod Trivia
pub mod Strings
pub mod Pound
pub mod Brackets
pub mod Run
pub mod Progress
mod Tests
