-- ===== src/Exception/Lines/Sorted.antt =====
-- Line lookup in a table whose addresses rise.
use llc.Common.{ℕ, ◌^◌, ◌≤◌, ◌<◌, ◌≡◌, ◌⊎◌, inl, inr, arith}
use llc.Common.{List, [], ◌∷◌, ◌++◌}
use llc.Exception.Tables.{LineRecord}
use llc.Exception.Lines.{line_loop, line_of, minus_one}

-- The addresses rise strictly from `a` on, and stay below the value -1.
abbrev pub Rising : ℕ → List LineRecord → Type 0
Rising a [] = Unit
Rising a (l ∷ lines) = (a < l.address) × (l.address < minus_one) × Rising l.address lines

-- An address at or before the one behind which the lines are read never stops the loop.
line_loop_before :
    (rip previous_rip previous_line : ℕ) (lines : List LineRecord) (l : LineRecord)
    → rip ≤ previous_rip
    → Rising previous_rip (lines ++ l ∷ [])
    → line_loop rip previous_rip previous_line (lines ++ l ∷ []) ≡ l.line_number
unfolding line_loop
line_loop_before rip pr pl [] l h rising = ground arith
line_loop_before rip pr pl (k ∷ lines) l h (up, small, rising) =
    ground (arith, line_loop_before rip k.address k.line_number lines l (omega arith) rising)

Rising-last :
    (a : ℕ) (front : List LineRecord) (l : LineRecord) (back : List LineRecord)
    → Rising a (front ++ l ∷ back)
    → a < l.address
Rising-last a [] l back (up, small, rising) = up
Rising-last a (k ∷ front) l back (up, small, rising) =
    ground (arith, Rising-last k.address front l back rising)

-- The loop passes the lines before the one whose address is the last below `rip`.
line_loop_between :
    (rip previous_rip previous_line : ℕ) (front : List LineRecord) (l next : LineRecord)
    (back : List LineRecord)
    → previous_rip < l.address
    → Rising previous_rip (front ++ l ∷ next ∷ back)
    → l.address < rip
    → rip ≤ next.address
    → line_loop rip previous_rip previous_line (front ++ l ∷ next ∷ back) ≡ l.line_number
unfolding line_loop
line_loop_between rip pr pl [] l next back first (up, small, rising) lo hi = ground arith
line_loop_between rip pr pl (k ∷ front) l next back first (up, small, rising) lo hi = ground (
  arith,
  Rising-last k.address front l (next ∷ back) rising,
  line_loop_between rip k.address k.line_number front l next back
      (Rising-last k.address front l (next ∷ back) rising) rising lo hi,
)

-- The loop passes all lines for an address behind the last one's.
line_loop_after :
    (rip previous_rip previous_line : ℕ) (lines : List LineRecord) (l : LineRecord)
    → Rising previous_rip (lines ++ l ∷ [])
    → l.address < rip
    → line_loop rip previous_rip previous_line (lines ++ l ∷ []) ≡ l.line_number
unfolding line_loop
line_loop_after rip pr pl [] l rising hi = ground arith
line_loop_after rip pr pl (k ∷ lines) l (up, small, rising) hi = ground (
  arith,
  Rising-last k.address lines l [] rising,
  line_loop_after rip k.address k.line_number lines l rising hi,
)

-- In a table whose addresses are positive, rise strictly and stay below 2 ^ 64 - 1, an address behind
-- a record's and at most the next record's has the line of that record.
pub line_of-between :
    (rip : ℕ) (front : List LineRecord) (l next : LineRecord) (back : List LineRecord)
    → Rising 0 (front ++ l ∷ next ∷ back)
    → l.address < rip
    → rip ≤ next.address
    → line_of rip (front ++ l ∷ next ∷ back) ≡ l.line_number
unfolding line_loop line_of
line_of-between rip [] l next back (up, small, rising) lo hi = ground arith
line_of-between rip (k ∷ front) l next back (up, small, rising) lo hi = ground (
  arith,
  Rising-last k.address front l (next ∷ back) rising,
  line_loop_between rip k.address k.line_number front l next back
      (Rising-last k.address front l (next ∷ back) rising) rising lo hi,
)

-- In a table whose addresses are positive, rise strictly and stay below 2 ^ 64 - 1, an address at or before
-- the first record's has the line of the last record, and so has an address behind the last record's.
pub line_of-outside :
    (rip : ℕ) (first : LineRecord) (lines : List LineRecord) (l : LineRecord)
    → Rising 0 (first ∷ lines ++ l ∷ [])
    → (rip ≤ first.address) ⊎ (l.address < rip)
    → rip < 2 ^ 64
    → line_of rip (first ∷ lines ++ l ∷ []) ≡ l.line_number
unfolding line_loop line_of
line_of-outside rip first lines l (up, small, rising) (inl h) width =
    ground (arith, line_loop_before rip first.address first.line_number lines l h rising)
line_of-outside rip first lines l (up, small, rising) (inr h) width = ground (
  arith,
  Rising-last first.address lines l [] rising,
  line_loop_after rip first.address first.line_number lines l rising h,
)
