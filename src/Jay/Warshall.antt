-- ===== src/Jay/Warshall.antt =====
-- jay/warshall.c: the transitive closure of a relation on the numbers below n. The matrix is the list
-- of its rows.
pub mod Round
pub mod Chain
pub mod Reflexive
use llc.Common.{
  ℕ, zero, suc, ◌+◌, ◌^◌, Bool, true, false, List, [], length, get_or, set, leb, if◌then◌else◌,
}
use Prim.Native.Nat.{bit_or}
use llc.Common.Bits.{test_bit}
use llc.Jay.Bits.{or_words, bits_per_word}

abbrev pub Matrix : Type 0
Matrix = List (List ℕ)

-- A row by its number.
abbrev pub row : Matrix → ℕ → List ℕ
row rows j = get_or rows j []

-- A round of the inner loop: where bit `i` of word `cword` is set in row `j`, row `c` is added to it.
unfoldable pub add_row : ℕ → ℕ → ℕ → ℕ → Matrix → Matrix
add_row c cword i j rows =
    if test_bit (get_or (row rows j) cword 0) i
    then set rows j (or_words (row rows j) (row rows c))
    else rows

-- The inner loop, with `left` rows from row `j` on.
unfoldable pub row_loop : ℕ → ℕ → ℕ → ℕ → ℕ → Matrix → Matrix
row_loop c cword i zero j rows = rows
row_loop c cword i (suc left) j rows = row_loop c cword i left (j + 1) (add_row c cword i j rows)

-- `if (++i >= BITS_PER_WORD) { i = 0; cword++; }`: the word and the bit.
abbrev pub next_bit : ℕ → ℕ → ℕ × ℕ
next_bit cword i = if leb bits_per_word (i + 1) then (cword + 1, 0) else (cword, i + 1)

-- The outer loop, with `left` rows from row `c` on.
unfoldable pub column_loop : ℕ → ℕ → ℕ → ℕ → Matrix → Matrix
column_loop zero c cword i rows = rows
column_loop (suc left) c cword i rows =
    column_loop left (c + 1) (next_bit cword i).0 (next_bit cword i).1
      (row_loop c cword i (length rows) 0 rows)

unfoldable pub transitive_closure : Matrix → Matrix
transitive_closure rows = column_loop (length rows) 0 0 0 rows

-- The loop over the diagonal, with `left` rows from row `j` on.
unfoldable pub diagonal_loop : ℕ → ℕ → ℕ → ℕ → Matrix → Matrix
diagonal_loop zero j word i rows = rows
diagonal_loop (suc left) j word i rows =
    diagonal_loop left (j + 1) (next_bit word i).0 (next_bit word i).1
      (set rows j (set (row rows j) word (bit_or (get_or (row rows j) word 0) (2 ^ i))))

unfoldable pub reflexive_transitive_closure : Matrix → Matrix
reflexive_transitive_closure rows =
    let closed = transitive_closure rows in diagonal_loop (length closed) 0 0 0 closed
