-- ===== src/Config.antt =====
-- include/config.hpp and src/config.cpp.
pub mod Name
pub mod Var
pub mod Registry
pub mod Yaml
pub mod Load
pub mod Convert
