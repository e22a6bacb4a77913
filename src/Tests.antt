-- ===== src/Tests.antt =====
-- Concrete inputs for the theorems, and runs of the definitions.
mod Loggers
mod Patterns
mod Settings
mod Fibers
mod Nodes
mod Conversions
mod Defines
mod Threads
