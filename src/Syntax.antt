-- ===== src/Syntax.antt =====
-- The vocabulary of the compiler: signals, actions and tokens.
pub mod Signal
pub mod Token
pub mod Keyword
