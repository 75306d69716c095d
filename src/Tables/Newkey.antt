-- ===== src/Tables/Newkey.antt =====
-- The three ways in which `newkey` finds a node for a key (gtable.c), each of which places it.
pub mod Reused
pub mod Chained
pub mod Displaced
