-- ===== src/Number.antt =====
-- `numeric` of include/covscript/core/components.hpp: the numbers of the language.
pub mod Integer
pub mod Overflow
pub mod Power
pub mod Order
pub mod Numeric
pub mod Division
pub mod Comparison
pub mod Closed
