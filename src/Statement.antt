-- ===== src/Statement.antt =====
-- The statements of sources/instance/statement.cpp that direct the flow of control. A value of type `S` is
-- the storage and all else that an expression reads or changes; expressions are of type `E`. The location
-- of a `lang_error` is not kept.
pub mod Outcome
pub mod Run
pub mod Control
pub mod Flow
pub mod Call
