-- ===== src/Tests/Lookaheads.antt =====
-- The theorems about jay/lalr.c on small relations, and on a small grammar.
use llc.Common.{ℕ, zero, suc, ◌≤◌, ◌<◌, ◌≡◌, ◌↔◌, inl, inr, refl, arith}
use llc.Common.{
  Bool, true, false, List, [], ◌∷◌, length, get_or, replicate, done, fault, ◌>>=◌, Among,
}
use llc.Jay.Bits.{or_words, set_bit}
use llc.Jay.Closure.{
  closure, rule_loop, predict_rules, first_derives, first_loop, fetch, set_rules, set_eff, eff_rows,
  eff_loop, word_loop, bit_loop, merge_item, copy_below, skip_same,
}
use llc.Jay.Lr0.{
  allocate_itemsets, new_itemsets, counts, count_loop, base_loop, put_item, add_item, item_loop,
  read_items, new_state, same_items, find_state, get_items, get_state,
}
use llc.Jay.Automaton.{
  Automaton, generate_states, state_loop, initialize_states, process_state, save_shifts,
  save_reductions, redset, add_reductions, append_states, shift_states, sort_symbols, sort_loop,
  insert_symbol,
}
use llc.Common.Bits.{test_bit}
use llc.Jay.Warshall.{
  Matrix, transitive_closure, reflexive_transitive_closure, column_loop, row_loop, add_row,
  diagonal_loop,
}
use llc.Jay.Warshall.Round.{related, AllSized}
use llc.Jay.Grammar.{Grammar, symbol, end_of, derives, derives_loop, maxshort}
use llc.Jay.Digraph.{digraph, vertex_loop, traverse, edge_loop, visit, take_edge, finish, pop_loop}
use llc.Jay.Digraph.State.{Gathers}
use llc.Jay.Digraph.Gather.{digraph-Gathers}
use llc.Jay.Gotos.{
  Gotos, symbol_loop, set_accessing_symbol, shift_loop, set_shift_table, reduction_loop,
  set_reduction_table, count_targets, count_gotos, first_gotos, fill_targets, fill_gotos,
  place_gotos, set_goto_map, find_goto, map_goto,
}
use llc.Jay.Gotos.Find.{GrowingSpan, map_goto-finds}
use llc.Jay.Reads.{
  lookaheads_loop, ruleno_loop, initialize_la, token_bits, read_edges, read_goto, reads_loop,
  end_bit, initialize_f,
}
use llc.Jay.Relations.{
  maxrhs_loop, set_maxrhs, next_state, walk_right, find_rule, add_lookback_edge, push_edge,
  walk_left, relate_rules, relate_gotos, count_edges, count_rows, write_edge, fill_edges, fill_rows,
  transpose, build_relations,
}
use llc.Jay.Lalr.{scene, union_loop, compute_lookaheads, look_ahead, lalr}
use llc.Jay.Lalr.Sources.{occurrences, sources}
use llc.Jay.Lalr.Transpose.{transpose-converse}

-- 0 and 1 lead to each other, and 1 to 2.
abbrev cycle : List (List ℕ)
cycle = (1 ∷ []) ∷ (0 ∷ 2 ∷ []) ∷ [] ∷ []

abbrev own : Matrix
own = (1 ∷ []) ∷ (2 ∷ []) ∷ (4 ∷ []) ∷ []

cycle_edges : (i j : ℕ) → Among j (get_or cycle i []) → j < 3
cycle_edges zero j (inl e) = omega (arith, e)
cycle_edges zero j (inr m) = elim m [ ]
cycle_edges (suc zero) j (inl e) = omega (arith, e)
cycle_edges (suc zero) j (inr (inl e)) = omega (arith, e)
cycle_edges (suc zero) j (inr (inr m)) = elim m [ ]
cycle_edges (suc (suc zero)) j m = elim m [ ]
cycle_edges (suc (suc (suc i))) j m = elim m [ ]

digraph_runs : digraph cycle 3 own ≡ done ((7 ∷ []) ∷ (7 ∷ []) ∷ (4 ∷ []) ∷ [])
unfolding digraph vertex_loop traverse edge_loop visit take_edge finish pop_loop or_words
digraph_runs = refl

digraph-Gathers_example :
    (f : Matrix) × (digraph cycle 3 own ≡ done f)
    × (length f ≡ 3)
    × AllSized 1 f
    × ((v b : ℕ) → (related f v b ≡ true) ↔ Gathers cycle own v b)
digraph-Gathers_example =
    digraph-Gathers cycle own 3 1 cycle_edges (omega arith) refl refl (refl, (refl, (refl, tt)))

transpose_runs : transpose cycle 3 ≡ done ((1 ∷ []) ∷ (0 ∷ []) ∷ (1 ∷ []) ∷ [])
unfolding transpose count_edges count_rows write_edge fill_edges fill_rows
transpose_runs = refl

cycle_counts : (j : ℕ) → j < 3 → length (sources j 0 cycle) ≤ maxshort
unfolding sources occurrences
cycle_counts zero lt = omega arith
cycle_counts (suc zero) lt = omega arith
cycle_counts (suc (suc zero)) lt = omega arith
cycle_counts (suc (suc (suc j))) lt = absurd (omega arith)

transpose-converse_example :
    (new_r : List (List ℕ)) × (transpose cycle 3 ≡ done new_r)
    × ((i j : ℕ) → j < 3 → Among i (get_or new_r j []) ↔ Among j (get_or cycle i []))
transpose-converse_example = transpose-converse cycle 3 refl cycle_edges cycle_counts

-- The gotos of the variables 4, 5 and 6: three of the last one.
abbrev three_gotos : Gotos
three_gotos = record {
  ngotos = 4;
  goto_map = 0 ∷ 0 ∷ 1 ∷ 4 ∷ [];
  from_state = 0 ∷ 0 ∷ 3 ∷ 7 ∷ [];
  to_state = 1 ∷ 2 ∷ 4 ∷ 8 ∷ [];
}

abbrev open_grammar : Grammar
open_grammar = record {
  start_symbol = 4;
  nsyms = 7;
  nrules = 6;
  nitems = 11;
  ritem = λ i.
      get_or
        (end_of 1
          ∷ symbol 5
          ∷ symbol 0
          ∷ end_of 2
          ∷ symbol 6
          ∷ end_of 3
          ∷ symbol 2
          ∷ end_of 4
          ∷ symbol 6
          ∷ symbol 3
          ∷ end_of 5
          ∷ [])
        i (end_of 0);
  rlhs = λ r. get_or (0 ∷ 0 ∷ 4 ∷ 5 ∷ 6 ∷ 6 ∷ []) r 0;
  rrhs = λ r. get_or (0 ∷ 0 ∷ 1 ∷ 4 ∷ 6 ∷ 8 ∷ []) r 0;
}

three_gotos-GrowingSpan : GrowingSpan three_gotos.from_state 1 4
three_gotos-GrowingSpan zero j s t lo lt hi e e' = absurd (omega arith)
three_gotos-GrowingSpan (suc zero) zero s t lo lt hi e e' = absurd (omega arith)
three_gotos-GrowingSpan (suc zero) (suc zero) s t lo lt hi e e' = absurd (omega arith)
three_gotos-GrowingSpan (suc zero) (suc (suc zero)) s t lo lt hi e e' =
    let a : 0 ≡ s = cc in let b : 3 ≡ t = cc in omega (arith, a, b)
three_gotos-GrowingSpan (suc zero) (suc (suc (suc zero))) s t lo lt hi e e' =
    let a : 0 ≡ s = cc in let b : 7 ≡ t = cc in omega (arith, a, b)
three_gotos-GrowingSpan (suc zero) (suc (suc (suc (suc j)))) s t lo lt hi e e' =
    absurd (omega arith)
three_gotos-GrowingSpan (suc (suc zero)) (suc (suc (suc zero))) s t lo lt hi e e' =
    let a : 3 ≡ s = cc in let b : 7 ≡ t = cc in omega (arith, a, b)
three_gotos-GrowingSpan (suc (suc zero)) zero s t lo lt hi e e' = absurd (omega arith)
three_gotos-GrowingSpan (suc (suc zero)) (suc zero) s t lo lt hi e e' = absurd (omega arith)
three_gotos-GrowingSpan (suc (suc zero)) (suc (suc zero)) s t lo lt hi e e' = absurd (omega arith)
three_gotos-GrowingSpan (suc (suc zero)) (suc (suc (suc (suc j)))) s t lo lt hi e e' =
    absurd (omega arith)
three_gotos-GrowingSpan (suc (suc (suc i))) j s t lo lt hi e e' = absurd (omega arith)

map_goto-finds_example : map_goto open_grammar three_gotos 7 6 ≡ done 3
map_goto-finds_example =
    map_goto-finds open_grammar three_gotos 7 6 3 (omega arith) three_gotos-GrowingSpan
      (omega arith) (omega arith) refl

-- The states of the grammar $accept : S $end, S : A, A : a, A : A b.
abbrev automaton : Automaton
automaton = record {
  store = record {
    states =
        record { number = 0; accessing_symbol = 0; items = 1 ∷ [] }
        ∷ record { number = 1; accessing_symbol = 2; items = 7 ∷ [] }
        ∷ record { number = 2; accessing_symbol = 5; items = 2 ∷ [] }
        ∷ record { number = 3; accessing_symbol = 6; items = 5 ∷ 9 ∷ [] }
        ∷ record { number = 4; accessing_symbol = 3; items = 10 ∷ [] }
        ∷ [];
    nstates = 5;
    state_set = [];
  };
  shifts =
      record { number = 0; shift = 1 ∷ 2 ∷ 3 ∷ [] } ∷ record { number = 3; shift = 4 ∷ [] } ∷ [];
  reductions =
      record { number = 1; rules = 4 ∷ [] }
      ∷ record { number = 3; rules = 3 ∷ [] }
      ∷ record { number = 4; rules = 5 ∷ [] }
      ∷ [];
}

abbrev never_empty : List Bool
never_empty = replicate 7 false

-- From state 0 on S and on A.
abbrev two_gotos : Gotos
two_gotos = record {
  ngotos = 2;
  goto_map = 0 ∷ 0 ∷ 1 ∷ 2 ∷ [];
  from_state = 0 ∷ 0 ∷ [];
  to_state = 2 ∷ 3 ∷ [];
}

-- A : a and A : A b are reduced before $end and b, and S : A before $end.
lalr_runs : lalr open_grammar automaton never_empty ≡ done ((9 ∷ []) ∷ (1 ∷ []) ∷ (9 ∷ []) ∷ [])
unfolding lalr look_ahead compute_lookaheads union_loop build_relations initialize_f end_bit
    set_goto_map place_gotos count_gotos count_targets first_gotos fill_gotos fill_targets
    reads_loop read_goto read_edges token_bits set_bit relate_gotos relate_rules walk_right
    next_state add_lookback_edge find_rule push_edge walk_left map_goto find_goto set_maxrhs
    maxrhs_loop derives derives_loop scene set_accessing_symbol symbol_loop set_shift_table
    shift_loop initialize_la lookaheads_loop ruleno_loop set_reduction_table reduction_loop
    transpose count_edges count_rows write_edge fill_edges fill_rows digraph vertex_loop traverse
    edge_loop visit take_edge finish pop_loop or_words
lalr_runs = refl

-- S : A, S : A N, S : A N N, S : A N N N, A : x and N : nothing, where edge has too little room.
abbrev repeating : Grammar
repeating = record {
  start_symbol = 3;
  nsyms = 7;
  nrules = 9;
  nitems = 21;
  ritem = λ i.
      get_or
        (end_of 1
          ∷ symbol 4
          ∷ symbol 0
          ∷ end_of 2
          ∷ symbol 5
          ∷ end_of 3
          ∷ symbol 5
          ∷ symbol 6
          ∷ end_of 4
          ∷ symbol 5
          ∷ symbol 6
          ∷ symbol 6
          ∷ end_of 5
          ∷ symbol 5
          ∷ symbol 6
          ∷ symbol 6
          ∷ symbol 6
          ∷ end_of 6
          ∷ symbol 2
          ∷ end_of 7
          ∷ end_of 8
          ∷ [])
        i (end_of 0);
  rlhs = λ r. get_or (0 ∷ 0 ∷ 3 ∷ 4 ∷ 4 ∷ 4 ∷ 4 ∷ 5 ∷ 6 ∷ []) r 0;
  rrhs = λ r. get_or (0 ∷ 0 ∷ 1 ∷ 4 ∷ 6 ∷ 9 ∷ 13 ∷ 18 ∷ 20 ∷ []) r 0;
}

abbrev only_n : List Bool
only_n = false ∷ false ∷ false ∷ false ∷ false ∷ false ∷ true ∷ []

repeating_runs : (generate_states repeating >>= λ a. lalr repeating a only_n) ≡ fault
unfolding lalr look_ahead compute_lookaheads union_loop build_relations initialize_f end_bit
    set_goto_map place_gotos count_gotos count_targets first_gotos fill_gotos fill_targets
    reads_loop read_goto read_edges token_bits set_bit relate_gotos relate_rules walk_right
    next_state add_lookback_edge find_rule push_edge walk_left map_goto find_goto set_maxrhs
    maxrhs_loop derives derives_loop scene set_accessing_symbol symbol_loop set_shift_table
    shift_loop initialize_la lookaheads_loop ruleno_loop set_reduction_table reduction_loop
    transpose count_edges count_rows write_edge fill_edges fill_rows digraph vertex_loop traverse
    edge_loop visit take_edge finish pop_loop or_words generate_states state_loop initialize_states
    process_state save_shifts save_reductions redset add_reductions append_states shift_states
    sort_symbols sort_loop insert_symbol allocate_itemsets counts count_loop base_loop put_item
    add_item item_loop new_itemsets read_items new_state same_items find_state get_items get_state
    closure rule_loop predict_rules first_derives first_loop fetch set_rules set_eff eff_rows
    eff_loop reflexive_transitive_closure transitive_closure column_loop row_loop add_row
    diagonal_loop test_bit word_loop bit_loop merge_item copy_below skip_same
repeating_runs = refl
