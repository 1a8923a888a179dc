-- ===== src/Exception.antt =====
-- lrt-exception.c: unwind tables, their cache, the walk over stack frames, and class tests.
pub mod Tables
pub mod Registry
pub mod Cache
pub mod Words
pub mod Classes
pub mod Handlers
pub mod Lines
pub mod Frames
