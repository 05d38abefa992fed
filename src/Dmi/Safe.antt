-- ===== src/Dmi/Safe.antt =====
-- Memory safety of the walk over a structure table: the strings of a structure that is decoded are
-- followed by a pair of NULs inside the table, and no read passes it.
pub mod Nul
pub mod Decode
pub mod Table
