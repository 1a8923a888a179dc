-- ===== src/Exception/Lines.antt =====
-- findLineNumber and __find_line_numbers of lrt-exception.c. What is appended to the string buffer
-- is a list of pieces; names stand for the strings that they point to.
pub mod Sorted
use llc.Common.{ℕ, zero, suc, ◌+◌, ◌-◌, ◌%◌, ◌^◌}
use llc.Common.{
  Bool, true, false, ◌&&◌, not, Option, none, some, List, [], ◌∷◌, ◌++◌, ltb, leb, ◌==◌,
  if◌then◌else◌,
}
use llc.Exception.Tables.{LineRecord}
use llc.Exception.Cache.{BacktraceRecord}

-- An append of a tab, of a method's name, of the text "unknown\n", of ": ", of a number, of a line
-- feed, and of ": outside method\n".
pub data Piece : Type 0 where
  tab unknown colon newline outside_method : Piece
  name : ℕ → Piece
  number : ℕ → Piece

-- The value -1 of a WORD.
abbrev pub minus_one : ℕ
minus_one = 2 ^ 64 - 1

-- The loop: `previous_line` when it ends. The table is the list of the records before the one
-- whose address is 0.
unfoldable pub line_loop : ℕ → ℕ → ℕ → List LineRecord → ℕ
line_loop rip previous_rip previous_line [] = previous_line
line_loop rip previous_rip previous_line (l ∷ lines) =
    let rest = line_loop rip l.address l.line_number lines in
    if ltb previous_rip rip && leb rip l.address then previous_line else rest

unfoldable pub line_of : ℕ → List LineRecord → ℕ
unfolding line_loop
line_of rip lines = line_loop rip minus_one minus_one lines

-- The appended `int` is the line's low 32 bits.
abbrev pub line_pieces : ℕ → List Piece
line_pieces line =
    if line == minus_one then outside_method ∷ [] else colon ∷ number (line % 2 ^ 32) ∷ newline ∷ []

abbrev pub named_pieces : ℕ → Option (List LineRecord) → List Piece
named_pieces rip none = newline ∷ []
named_pieces rip (some lines) = line_pieces (line_of rip lines)

-- findLineNumber, for a buffer and a record that are not null.
unfoldable pub find_line_number : BacktraceRecord → List Piece
find_line_number b = elim b.method_name [
  | none ↦ tab ∷ unknown ∷ []
  | some n ↦ tab ∷ name n ∷ named_pieces b.rip b.line_number_info
]

-- __find_line_numbers stops at the record whose address is 0; a pointer that is null is no record.
unfoldable pub find_line_numbers : List BacktraceRecord → List Piece
find_line_numbers [] = []
find_line_numbers (b ∷ backtrace) =
    if b.rip == 0 then [] else find_line_number b ++ find_line_numbers backtrace
