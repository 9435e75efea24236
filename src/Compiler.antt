-- ===== src/Compiler.antt =====
-- From the lines of a program to statements: keywords, grammars and blocks.
pub mod Method
pub mod Match
pub mod Grammar
pub mod TokenBuff
pub mod Translate
