-- ===== src/Tests.antt =====
-- The definitions on concrete inputs, and the theorems at inputs that meet their hypotheses.
mod Brackets
mod Chars
mod Charset
mod Functions
mod Parsing
mod Runtime
mod Signals
mod Numbers
mod Preprocessor
mod Statements
mod Killed
mod Running
mod Folding
