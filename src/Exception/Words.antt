-- ===== src/Exception/Words.antt =====
-- The 64-bit words that the routines of lrt-exception.c read through a `WORD *`.
use llc.Common.{ℕ, ◌%◌, ◌^◌, Option, none, some, Run, done, fault, stuck, ◌≢◌, arith}

-- `none` is an address that is not mapped, or a null pointer.
abbrev pub Words : Type 0
Words = ℕ → Option ℕ

unfoldable pub load_word : Words → ℕ → Run ℕ
load_word m p = elim (m p) [ none ↦ fault | some w ↦ done (w % 2 ^ 64) ]

pub load_word-ne-stuck : (m : Words) (p : ℕ) → load_word m p ≢ stuck
unfolding load_word
load_word-ne-stuck m p = ground arith
