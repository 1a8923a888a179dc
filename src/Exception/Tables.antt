-- ===== src/Exception/Tables.antt =====
-- The unwind tables of lrt-exception.c, and the two searches that findUnwindInfo makes in one.
pub mod Linear
pub mod Binary
pub mod Last
use llc.Common.{ℕ, zero, suc, ◌+◌, ◌-◌, ◌/◌, ◌%◌, ◌^◌}
use llc.Common.{Bool, true, false, ◌&&◌, Option, none, some, List, [], ◌∷◌, ◌++◌, get_elem?, length}
use llc.Common.{Run, done, fault, stuck, ◌>>=◌, ltb, leb, ◌==◌, if◌then◌else◌}

pub record LineRecord : Type 0 where
  pub address : ℕ
  pub line_number : ℕ

-- The field ro_size is never read. A null name or line table is `none`.
pub record UnwindRecord : Type 0 where
  pub method_start : ℕ
  pub method_length : ℕ
  pub method_name : Option ℕ
  pub line_numbers : Option (List LineRecord)
  pub flags : ℕ

-- The address behind a method, as a 64-bit word.
abbrev pub method_end : UnwindRecord → ℕ
method_end q = (q.method_start + q.method_length) % 2 ^ 64

-- The test of the linear search, which leaves the end out, and that of the binary search.
abbrev pub holds_half_open : ℕ → UnwindRecord → Bool
holds_half_open rip q = leb q.method_start rip && ltb rip (method_end q)

abbrev pub holds_closed : ℕ → UnwindRecord → Bool
holds_closed rip q = leb q.method_start rip && leb rip (method_end q)

-- `p = q` under the test of a round.
unfoldable pub take_match : ℕ → UnwindRecord → Option UnwindRecord → Option UnwindRecord
take_match rip q p = if holds_half_open rip q then some q else p

-- The linear search, which also counts the records: the last record that matches, and the count.
-- The table is the list of the records before the one whose method_start is 0.
unfoldable pub linear_search :
    ℕ → List UnwindRecord → Option UnwindRecord → ℕ → Option UnwindRecord × ℕ
linear_search rip [] p count = (p, count)
linear_search rip (q ∷ table) p count = linear_search rip table (take_match rip q p) (count + 1)

-- What a round of the binary search makes of the record at index `r`, with `p` the lower end.
pub data Chop : Type 0 where
  outside downwards upwards : Chop
  stop : Option UnwindRecord → Chop

abbrev pub chop_record : ℕ → UnwindRecord → Bool → Chop
chop_record rip m is_first =
    if is_first
    then stop (if holds_closed rip m then some m else none)
    else if ltb rip m.method_start
    then downwards
    else if ltb (method_end m) rip
    then upwards
    else stop (some m)

-- The record behind those of a table: its method_start is 0, and it is taken to be all zeros.
abbrev pub terminator : UnwindRecord
terminator = record {
  method_start = 0;
  method_length = 0;
  method_name = none;
  line_numbers = none;
  flags = 0;
}

-- A record of the table, the terminating one included.
abbrev pub record_at : List UnwindRecord → ℕ → Option UnwindRecord
record_at table r = get_elem? (table ++ terminator ∷ []) r

unfoldable pub chop : ℕ → List UnwindRecord → ℕ → ℕ → Chop
chop rip table p r = elim (record_at table r) [
  | none ↦ outside
  | some m ↦ chop_record rip m (r == p)
]

abbrev pub middle : ℕ → ℕ → ℕ
middle p q = p + (q - p) / 2

-- The binary search over the records from index `p` to index `q`; it faults behind the
-- terminating record.
unfoldable pub binary_search : ℕ → ℕ → List UnwindRecord → ℕ → ℕ → Run (Option UnwindRecord)
binary_search zero rip table p q = stuck
binary_search (suc fuel) rip table p q = elim (chop rip table p (middle p q)) [
  | outside ↦ fault
  | stop found ↦ done found
  | downwards ↦ binary_search fuel rip table p (middle p q)
  | upwards ↦ binary_search fuel rip table (middle p q) q
]

-- One table of which `count` is the known length, 0 if it is not known: the record and the length
-- from now on.
unfoldable pub search_table : ℕ → List UnwindRecord → ℕ → Run (Option UnwindRecord × ℕ)
search_table rip table count =
    if count == 0
    then done (linear_search rip table none 0)
    else (do found ← binary_search count rip table 0 (count - 1); done (found, count))
