-- ===== src/Expression.antt =====
-- Expressions: their evaluation in sources/instance/runtime.cpp and their optimiser in
-- sources/compiler/compiler.cpp, on the trees that the parser builds.
pub mod Eval
pub mod Optimizer
