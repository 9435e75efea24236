-- ===== src/Lexer.antt =====
-- sources/compiler/lexer.cpp: from characters to the tokens of a line.
pub mod Preprocessor
pub mod Brackets
pub mod Charset
pub mod Signals
pub mod Chars
