-- ===== src/Runtime.antt =====
-- What runs a program: the scopes of variables (include/covscript/core/core.hpp) and the stacks of
-- them (include/covscript/impl/runtime.hpp).
pub mod Domain
pub mod Functions
pub mod Storage
