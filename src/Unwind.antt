-- ===== src/Unwind.antt =====
-- lrt-unwind.c: the personality routine of the L runtime, and the collector's root ranges.
pub mod Memory
pub mod Leb
pub mod Pointer
pub mod Lsda
pub mod Actions
pub mod Roots
