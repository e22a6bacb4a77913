-- ===== src/Log.antt =====
-- include/log.hpp and src/log.cpp.
pub mod Level
pub mod Event
pub mod Formatter
pub mod Appender
pub mod Logger
pub mod Manager
pub mod Macro
pub mod Conf
