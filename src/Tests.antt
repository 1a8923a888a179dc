-- ===== src/Tests.antt =====
-- Examples on which the theorems are applied.
mod Unwind
mod Tables
mod Exception
mod Jay
mod Automaton
mod Lookaheads
mod Vectors
