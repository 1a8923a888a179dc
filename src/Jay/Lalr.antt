-- ===== src/Jay/Lalr.antt =====
-- jay/lalr.c: the lookahead sets. LA is the list of its rows of bits.
pub mod Sources
pub mod Includes
pub mod Relate
pub mod Lookback
pub mod Built
pub mod Read
pub mod Direct
pub mod Filling
pub mod Transpose
pub mod Lookaheads
pub mod Bounds
pub mod Follow
use llc.Common.{ℕ, zero, suc, ◌+◌, ◌-◌}
use llc.Common.{
  Bool, true, false, ◌&&◌, Option, none, some, List, [], ◌∷◌, ◌++◌, map, length, get_or, set,
  replicate, Run, done, fault, abort, stuck, ◌>>=◌, leb, ltb, ◌==◌, if◌then◌else◌,
}
use llc.Jay.Bits.{word_size, zeros, set_bit, or_words}
use llc.Jay.Warshall.{Matrix, row}
use llc.Jay.Grammar.{Grammar, Entry, symbol, end_of, is_var, derives}
use llc.Jay.Automaton.{Automaton, Shifts, Reductions}
use llc.Jay.Digraph.{digraph}
use llc.Jay.Gotos.{
  Gotos, set_accessing_symbol, set_shift_table, set_reduction_table, set_goto_map, map_goto,
}
use llc.Jay.Reads.{
  Reducing, rules_of, lookaheads_loop, ruleno_loop, initialize_la, Scene, symbol_of, token_bits,
  read_edges, read_goto, reads_loop, end_bit, initialize_f,
}
use llc.Jay.Relations.{
  maxrhs_loop, set_maxrhs, next_state, walk_right, find_rule, add_lookback_edge, push_edge,
  walk_left, relate_rules, relate_gotos, Turning, count_edges, count_rows, write_edge, fill_edges,
  fill_rows, transpose, build_relations,
}

-- The loop of compute_lookaheads over an entry of lookback, on the row of LA.
unfoldable pub union_loop : Matrix → List ℕ → List ℕ → List ℕ
union_loop f bits [] = bits
union_loop f bits (p ∷ lookback) = union_loop f (or_words bits (row f p)) lookback

-- compute_lookaheads: LA, from its rows of zeros.
unfoldable pub compute_lookaheads : ℕ → Matrix → List (List ℕ) → Matrix
compute_lookaheads tokensetsize f lookback =
    map (λ edges. union_loop f (zeros tokensetsize) edges) lookback

-- compute_FOLLOWS and compute_lookaheads, from what build_relations leaves.
unfoldable pub look_ahead : ℕ → ℕ → Matrix → List (List ℕ) → List (List ℕ) → Run Matrix
look_ahead tokensetsize ngotos f includes lookback =
    digraph includes ngotos f >>= λ follows. done (compute_lookaheads tokensetsize follows lookback)

-- The tables behind set_goto_map.
unfoldable pub scene : Automaton → List Bool → Gotos → Scene
scene a nullable gotos = record {
  accessing_symbol = set_accessing_symbol a;
  shift_table = set_shift_table a;
  nullable = nullable;
  gotos = gotos;
  reducing = initialize_la (set_reduction_table a);
}

-- lalr: LA.
unfoldable pub lalr : Grammar → Automaton → List Bool → Run Matrix
lalr g a nullable = set_goto_map g (set_accessing_symbol a) a.shifts >>= λ gotos.
    initialize_f g (scene a nullable gotos) >>= λ f.
    build_relations g (scene a nullable gotos) >>= λ (lookback, includes).
    look_ahead (word_size g.start_symbol) gotos.ngotos f includes lookback
