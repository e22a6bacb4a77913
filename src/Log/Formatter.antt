-- ===== src/Log/Formatter.antt =====
-- LogFormatter of src/log.cpp: the pattern's parser, the items and the formatting of an event.
pub mod Parse
pub mod Positions
pub mod Rounds
pub mod Pieces
pub mod Total
pub mod Quirks
pub mod Items
pub mod Meaning
pub mod Nameless
