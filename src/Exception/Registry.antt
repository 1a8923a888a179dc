-- ===== src/Exception/Registry.antt =====
-- The tables of a program: the one that it starts with, and the list that __add_unwind_info keeps.
pub mod Sound
use llc.Common.{ℕ, ◌+◌}
use llc.Common.{Option, none, some, List, [], ◌∷◌, Run, done, fault, ◌>>=◌}
use llc.Exception.Tables.{UnwindRecord, search_table}

-- UnwindList, whose `tail` is the rest of the list; a null head is `none`.
pub record Node : Type 0 where
  pub head : Option (List UnwindRecord)
  pub length : ℕ

-- __unwind_start, __unwind_length and unwind_head.
pub record Registry : Type 0 where
  pub start : List UnwindRecord
  pub start_length : ℕ
  pub unwind_head : List Node

-- __add_unwind_info.
abbrev pub add_unwind_info : Option (List UnwindRecord) → Registry → Registry
add_unwind_info u reg = record reg {
  unwind_head = record { head = u; length = 0 } ∷ reg.unwind_head;
}

-- `*p_length = length` for the first node.
abbrev pub put_length : ℕ → List Node → List Node
put_length n [] = []
put_length n (node ∷ nodes) = record node { length = n } ∷ nodes

-- The loop over the tables in findUnwindInfo, from the table `start` of length `length` on, with
-- `next` the nodes behind it: what is found, the length of this table, and the nodes. The code
-- takes the length of a node's table from the node behind it, and faults where there is none; a null head ends
-- the loop.
unfoldable pub search_tables :
    ℕ → List UnwindRecord → ℕ → List Node → Run (Option UnwindRecord × ℕ × List Node)
search_tables rip start length [] = do
  (found, length') ← search_table rip start length
  done (found, length', [])
search_tables rip start length (node ∷ []) = do
  (found, length') ← search_table rip start length
  elim found [ some p ↦ done (some p, length', node ∷ []) | none ↦ fault ]
search_tables rip start length (node ∷ next ∷ nodes) = do
  (found, length') ← search_table rip start length
  elim found [
    | some p ↦ done (some p, length', node ∷ next ∷ nodes)
    | none ↦ elim node.head [
      | none ↦ done (none, length', node ∷ next ∷ nodes)
      | some head ↦ search_tables rip head next.length (next ∷ nodes) >>= λ (found', n, nodes').
          done (found', length', node ∷ put_length n nodes')
    ]
  ]

unfoldable pub search_registry : ℕ → Registry → Run (Option UnwindRecord × Registry)
search_registry rip reg = do
  (found, n, nodes) ← search_tables rip reg.start reg.start_length reg.unwind_head
  done (found, record reg { start_length = n; unwind_head = nodes })
