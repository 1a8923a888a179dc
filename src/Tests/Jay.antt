-- ===== src/Tests/Jay.antt =====
-- The theorems about jay/mkpar.c on a small automaton.
use llc.Common.{◌≤◌, ◌<◌, ◌≡◌, arith}
use llc.Common.{false, none, some, List, [], ◌∷◌, ◌==◌, ltb, if◌then◌else◌}
use llc.Jay.Mkpar.{
  Tables, Action, left, resolve_row, sole_loop, sole_reduction, parse_actions, shift_action,
  reduce_action,
}
use llc.Jay.Symtab.{lookup, create_symbol_table, hash, hash_loop}
use llc.Jay.Symtab.Again.{lookup_again}
use llc.Jay.Mkpar.Rows.{IsSorted, parse_actions-IsSorted}
use llc.Jay.Mkpar.Unique.{live_count, parse_actions_unique}
use llc.Jay.Mkpar.Defaults.{OnlyReduces, HasLive, sole_reduction-OnlyReduces}

-- State 5 shifts the tokens 2 and 4 to the states 7 and 8, and reduces by rule 3 on the tokens 2 and 3.
abbrev tables : Tables
tables = record {
  start_symbol = 10;
  ntokens = 6;
  shift_table = λ s. if s == 5 then some (7 ∷ 8 ∷ []) else none;
  accessing_symbol = λ k. if k == 7 then 2 else 4;
  symbol_prec = λ s. 1;
  symbol_assoc = λ s. left;
  rprec = λ r. 1;
  rassoc = λ r. left;
  lookaheads = λ s. if ltb 5 s then 1 else 0;
  la_ruleno = λ i. 3;
  la = λ i. 12;
  goal = 11;
}

parse_actions-IsSorted_example : IsSorted (parse_actions tables 5)
parse_actions-IsSorted_example = parse_actions-IsSorted tables 5 (omega arith, (omega arith, tt))

parse_actions_unique_example : live_count 2 (resolve_row false (parse_actions tables 5)).0 ≤ 1
parse_actions_unique_example =
    parse_actions_unique tables 5 2 false (omega arith, (omega arith, tt))

-- A shift on token 2, and reductions by the rules 3 and 4 on it.
abbrev row : List Action
row = shift_action tables 7 ∷ reduce_action tables 3 2 ∷ reduce_action tables 4 2 ∷ []

abbrev reductions : List Action
reductions = reduce_action tables 3 2 ∷ reduce_action tables 3 4 ∷ []

reductions_sole : 0 < sole_reduction reductions
unfolding sole_reduction sole_loop
reductions_sole = omega arith

sole_reduction-OnlyReduces_example :
    OnlyReduces (sole_reduction reductions) reductions × HasLive reductions
sole_reduction-OnlyReduces_example =
    sole_reduction-OnlyReduces reductions (omega arith, (omega arith, tt)) reductions_sole

-- The table as it is created, and a name that is not in it.
lookup_again_example :
    lookup (120 ∷ []) (lookup (120 ∷ []) create_symbol_table).1
    ≡ lookup (120 ∷ []) create_symbol_table
unfolding create_symbol_table hash hash_loop
lookup_again_example = lookup_again (120 ∷ []) create_symbol_table tt
