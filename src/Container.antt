-- ===== src/Container.antt =====
-- include/covscript/core/components.hpp: the containers that the compiler and the runtime share.
pub mod Tree
