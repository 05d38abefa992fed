-- ===== src/Dmi.antt =====
-- dmidecode.c: the SMBIOS entry point is looked for in a copy of physical memory, its structure
-- table is walked, and the strings of three kinds of structures are kept. A copy of memory is the
-- list of its bytes; `none` is an access outside it. /dev/mem is a parameter: what `mem_chunk`
-- returns for an address and a length.
pub mod Strings
pub mod Decode
pub mod Table
pub mod Entry
pub mod Safe
pub mod Lookup
pub mod Search
pub mod Absent
mod Examples
