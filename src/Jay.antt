-- ===== src/Jay.antt =====
-- The parser generator jay.
pub mod Mkpar
pub mod Symtab
pub mod Bits
pub mod Warshall
pub mod Grammar
pub mod Closure
pub mod Nullable
pub mod Lr0
pub mod Automaton
pub mod Pack
pub mod Digraph
pub mod Gotos
pub mod Reads
pub mod Relations
pub mod Lalr
pub mod Vectors
