-- ===== src/Parser.antt =====
-- sources/compiler/parser.cpp: from the tokens of a line to expression trees.
pub mod Build
pub mod Push
pub mod Rank
pub mod Split
pub mod Kill
