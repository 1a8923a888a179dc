-- ===== src/Tests/Automaton.antt =====
-- The theorems about jay's passes before mkpar.c on a small grammar.
use llc.Common.{ℕ, zero, suc, ◌<◌, ◌≡◌, ◌≤◌, ◌↔◌, refl, arith}
use llc.Common.{
  length, ◌+◌, Bool, true, false, none, some, Run, done, fault, abort, stuck, map, List, [], ◌∷◌,
  Among, get_or,
}
use llc.Jay.Grammar.{Grammar, Entry, symbol, end_of, derives, derives_loop}
use llc.Jay.Warshall.{
  Matrix, transitive_closure, reflexive_transitive_closure, column_loop, row_loop, add_row,
  diagonal_loop,
}
use llc.Jay.Warshall.Round.{related}
use llc.Jay.Warshall.Chain.{Chain, transitive_closure-Chain}
use llc.Common.Bits.{test_bit}
use llc.Jay.Bits.{set_bit, or_words}
use llc.Jay.Closure.{
  closure, rule_loop, predict_rules, first_derives, first_loop, fetch, set_rules, set_eff, eff_rows,
  eff_loop, word_loop, bit_loop, merge_item, copy_below, skip_same,
}
use llc.Jay.Closure.First.{IsGrammar}
use llc.Jay.Closure.Items.{InClosure, closure-InClosure}
use llc.Jay.Closure.Order.{Rising, closure-Rising}
use llc.Jay.Nullable.{set_nullable, nullable_loop, pass_loop, pass_entry}
use llc.Jay.Nullable.Rules.{Nullable, IsPacked}
use llc.Jay.Nullable.Fixpoint.{set_nullable-Nullable}
use llc.Jay.Lr0.{
  allocate_itemsets, new_itemsets, counts, count_loop, base_loop, put_item, add_item, item_loop,
  read_items, new_state, same_items, find_state, get_items, get_state,
}
use llc.Jay.Lr0.Itemsets.{Kerneled, allocate_itemsets-Allocated, new_itemsets-Kerneled}
use llc.Jay.Automaton.{
  Automaton, generate_states, state_loop, initialize_states, process_state, save_shifts,
  save_reductions, redset, add_reductions, append_states, shift_states, sort_symbols, sort_loop,
  insert_symbol,
}
use llc.Jay.Automaton.Sort.{Growing, AllBelow}
use llc.Jay.Automaton.Generate.{IsTables}
use llc.Jay.Mkpar.{Assoc, left, token}
use llc.Jay.Pack.{
  Symbol, Source, pack_grammar, pack_rules, take_rule, rule_entries, rule_prec, last_term,
}
use llc.Jay.Pack.Tables.{IsSource, pack_grammar-IsTables}

-- 0 is related to 1, and 1 to 2.
abbrev path : Matrix
path = (2 ∷ []) ∷ (4 ∷ []) ∷ (0 ∷ []) ∷ []

transitive_closure-Chain_example : (related (transitive_closure path) 0 2 ≡ true) ↔ Chain path 0 2
transitive_closure-Chain_example = transitive_closure-Chain 1 path 0 2 (refl, (refl, (refl, tt)))

-- $accept : S $end, S : A, A : a, A : A b. The symbols are $end, error, a, b, $accept, S and A.
abbrev items : List Entry
items =
    end_of 1
    ∷ symbol 5
    ∷ symbol 0
    ∷ end_of 2
    ∷ symbol 6
    ∷ end_of 3
    ∷ symbol 2
    ∷ end_of 4
    ∷ symbol 6
    ∷ symbol 3
    ∷ end_of 5
    ∷ []

abbrev sample : Grammar
sample = record {
  start_symbol = 4;
  nsyms = 7;
  nrules = 6;
  nitems = 11;
  ritem = λ i. get_or items i (end_of 0);
  rlhs = λ r. get_or (0 ∷ 0 ∷ 4 ∷ 5 ∷ 6 ∷ 6 ∷ []) r 0;
  rrhs = λ r. get_or (0 ∷ 0 ∷ 1 ∷ 4 ∷ 6 ∷ 8 ∷ []) r 0;
}

abbrev Below : ℕ → List Entry → Type 0
Below n [] = Unit
Below n (symbol s ∷ entries) = (s < n) × Below n entries
Below n (end_of r ∷ entries) = Below n entries

Below-all :
    (n : ℕ) (entries : List Entry) (i s : ℕ)
    → Below n entries
    → get_or entries i (end_of 0) ≡ symbol s
    → s < n
Below-all n [] i s h e = absurd cc
Below-all n (symbol t ∷ entries) zero s (h, rest) e = let same : t ≡ s = cc in rw same at h
Below-all n (end_of r ∷ entries) zero s h e = absurd cc
Below-all n (symbol t ∷ entries) (suc i) s (h, rest) e = Below-all n entries i s rest e
Below-all n (end_of r ∷ entries) (suc i) s h e = Below-all n entries i s h e

sample-IsGrammar : IsGrammar sample
sample-IsGrammar = record {
  vars = omega arith;
  no_rule_zero = omega arith;
  in_range = λ i s e.
      Below-all 7 items i s
        (omega arith, (omega arith, (omega arith, (omega arith, (omega arith, (omega arith, tt))))))
        e;
}

closure-InClosure_example : Among 8 (closure sample (1 ∷ [])) ↔ InClosure sample (1 ∷ []) 8
closure-InClosure_example = closure-InClosure sample sample-IsGrammar (1 ∷ []) 8

closure_runs : closure sample (1 ∷ []) ≡ 1 ∷ 4 ∷ 6 ∷ 8 ∷ []
unfolding closure rule_loop predict_rules first_derives first_loop fetch set_rules set_eff eff_rows
    eff_loop derives derives_loop set_bit or_words reflexive_transitive_closure transitive_closure
    column_loop row_loop add_row diagonal_loop test_bit word_loop bit_loop merge_item copy_below
    skip_same
closure_runs = refl

Growing-ge : (lo i : ℕ) (xs : List ℕ) → Growing lo xs → i < length xs → lo ≤ get_or xs i 0
Growing-ge lo i [] g lt = absurd (omega arith)
Growing-ge lo zero (x ∷ xs) (le, g) lt = le
Growing-ge lo (suc i) (x ∷ xs) (le, g) lt =
    let later = Growing-ge (x + 1) i xs g (omega arith) in omega arith

Growing-lt :
    (lo i j : ℕ) (xs : List ℕ)
    → Growing lo xs
    → i < j
    → j < length xs
    → get_or xs i 0 < get_or xs j 0
Growing-lt lo i j [] g less lt = absurd (omega arith)
Growing-lt lo i zero (x ∷ xs) g less lt = absurd (omega arith)
Growing-lt lo zero (suc j) (x ∷ xs) (le, g) less lt =
    let later = Growing-ge (x + 1) j xs g (omega arith) in omega arith
Growing-lt lo (suc i) (suc j) (x ∷ xs) (le, g) less lt =
    Growing-lt (x + 1) i j xs g (omega arith) (omega arith)

below_at : (n i : ℕ) (xs : List ℕ) → 0 < n → AllBelow n xs → get_or xs i 0 < n
below_at n i [] pos below = pos
below_at n zero (x ∷ xs) pos (lt, below) = lt
below_at n (suc i) (x ∷ xs) pos (lt, below) = below_at n i xs pos below

abbrev Closed : List Entry → Type 0
Closed [] = Unit
Closed (end_of r ∷ []) = Unit
Closed (symbol s ∷ []) = ⊥
Closed (e ∷ e' ∷ entries) = Closed (e' ∷ entries)

Closed-at :
    (entries : List Entry) (i s : ℕ)
    → Closed entries
    → get_or entries i (end_of 0) ≡ symbol s
    → i + 1 < length entries
Closed-at [] i s c e = absurd cc
Closed-at (end_of r ∷ []) zero s c e = absurd cc
Closed-at (end_of r ∷ []) (suc i) s c e = absurd cc
Closed-at (symbol t ∷ []) i s c e = absurd c
Closed-at (f ∷ f' ∷ entries) zero s c e = omega arith
Closed-at (symbol t ∷ f' ∷ entries) (suc i) s c e = omega (arith, Closed-at (f' ∷ entries) i s c e)
Closed-at (end_of r ∷ f' ∷ entries) (suc i) s c e = omega (arith, Closed-at (f' ∷ entries) i s c e)

-- Its rules by number, from rule 2 on, and the ends of its right sides.
right_sides : (r r' : ℕ) → 4 ≤ sample.rlhs r → r < r' → r' < 6 → sample.rrhs r < sample.rrhs r'
right_sides zero r' var less lt = absurd (omega arith)
right_sides (suc zero) r' var less lt = absurd (omega arith)
right_sides (suc (suc r)) zero var less lt = absurd (omega arith)
right_sides (suc (suc r)) (suc zero) var less lt = absurd (omega arith)
right_sides (suc (suc r)) (suc (suc r')) var less lt =
    Growing-lt 0 r r' (1 ∷ 4 ∷ 6 ∷ 8 ∷ [])
      (omega arith, (omega arith, (omega arith, (omega arith, tt)))) (omega arith) (omega arith)

sample-IsTables : IsTables sample
sample-IsTables = record {
  grammar = sample-IsGrammar;
  ordered = record {
    rules = right_sides;
    inside = λ r lt. below_at 11 r (0 ∷ 0 ∷ 1 ∷ 4 ∷ 6 ∷ 8 ∷ []) (omega arith) (
      omega arith,
      (omega arith, (omega arith, (omega arith, (omega arith, (omega arith, tt))))),
    );
  };
  ended = λ i s e. Closed-at items i s tt e;
  short = omega arith;
}

closure-Rising_example : Rising 0 11 (closure sample (1 ∷ []))
closure-Rising_example =
    closure-Rising sample (1 ∷ []) sample-IsGrammar sample-IsTables.ordered
      (omega arith, omega arith, tt)

new_itemsets-Kerneled_example :
    Kerneled sample
      (new_itemsets sample (allocate_itemsets sample) (1 ∷ 4 ∷ 6 ∷ 8 ∷ []))
      (1 ∷ 4 ∷ 6 ∷ 8 ∷ [])
new_itemsets-Kerneled_example =
    new_itemsets-Kerneled sample (allocate_itemsets sample) (1 ∷ 4 ∷ 6 ∷ 8 ∷ [])
      sample-IsGrammar.in_range (omega arith) (allocate_itemsets-Allocated sample)
      (
        omega arith,
        omega arith,
        (omega arith, omega arith, (omega arith, omega arith, (omega arith, omega arith, tt))),
      )

abbrev kernels_of : Run Automaton → List (List ℕ)
kernels_of (done a) = map (λ p. p.items) a.store.states
kernels_of fault = []
kernels_of abort = []
kernels_of stuck = []

generate_states_runs :
    kernels_of (generate_states sample)
    ≡ (1 ∷ []) ∷ (7 ∷ []) ∷ (2 ∷ []) ∷ (5 ∷ 9 ∷ []) ∷ (10 ∷ []) ∷ []
unfolding generate_states state_loop initialize_states process_state save_shifts save_reductions
    redset add_reductions append_states shift_states sort_symbols sort_loop insert_symbol
    allocate_itemsets counts count_loop base_loop put_item add_item item_loop new_itemsets
    read_items new_state same_items find_state get_items get_state closure rule_loop predict_rules
    first_derives first_loop fetch set_rules set_eff eff_rows eff_loop derives derives_loop set_bit
    or_words reflexive_transitive_closure transitive_closure column_loop row_loop add_row
    diagonal_loop test_bit word_loop bit_loop merge_item copy_below skip_same
generate_states_runs = refl

-- S : A A, A : nothing.
abbrev vanishing : List Entry
vanishing =
    end_of 1 ∷ symbol 3 ∷ symbol 0 ∷ end_of 2 ∷ symbol 4 ∷ symbol 4 ∷ end_of 3 ∷ end_of 4 ∷ []

abbrev empties : Grammar
empties = record {
  start_symbol = 2;
  nsyms = 5;
  nrules = 5;
  nitems = 8;
  ritem = λ i. get_or vanishing i (end_of 0);
  rlhs = λ r. get_or (0 ∷ 0 ∷ 2 ∷ 3 ∷ 4 ∷ []) r 0;
  rrhs = λ r. get_or (0 ∷ 0 ∷ 1 ∷ 4 ∷ 7 ∷ []) r 0;
}

set_nullable_runs : set_nullable empties ≡ done (false ∷ false ∷ false ∷ true ∷ true ∷ [])
unfolding set_nullable nullable_loop pass_loop pass_entry
set_nullable_runs = refl

left_below : (r : ℕ) → empties.rlhs r < 5
left_below r =
    below_at 5 r (0 ∷ 0 ∷ 2 ∷ 3 ∷ 4 ∷ []) (omega arith)
      (omega arith, (omega arith, (omega arith, (omega arith, (omega arith, tt)))))

set_nullable-Nullable_example :
    (nullable : List Bool) × (set_nullable empties ≡ done nullable)
    × ((x : ℕ) → (get_or nullable x false ≡ true) ↔ Nullable empties x)
set_nullable-Nullable_example =
    set_nullable-Nullable empties
      (record { nonempty = omega arith; last = (4, refl); left_sides = λ i r e. left_below r })

-- The grammar of the sample, as it is read: S : A; A : a; A : A b.
abbrev term_a : Symbol
term_a = record { index = 2; is_term = true; prec = 0; assoc = token }

abbrev term_b : Symbol
term_b = record { index = 3; is_term = true; prec = 1; assoc = left }

abbrev var_a : Symbol
var_a = record { index = 6; is_term = false; prec = 0; assoc = token }

abbrev read_rules : Source
read_rules = record {
  goal = 5;
  start_symbol = 4;
  nsyms = 7;
  nrules = 6;
  nitems = 11;
  plhs = λ r. get_or (0 ∷ 0 ∷ 0 ∷ 5 ∷ 6 ∷ 6 ∷ []) r 0;
  pitem = some var_a ∷ none ∷ some term_a ∷ none ∷ some var_a ∷ some term_b ∷ none ∷ [];
  rprec = λ r. none;
  rassoc = λ r. token;
}

read_rules-IsSource : IsSource read_rules
read_rules-IsSource = record {
  some_rule = omega arith;
  tokens = omega arith;
  symbols = omega arith;
  goal = omega arith;
  lefts = λ r.
      below_at 7 r (0 ∷ 0 ∷ 0 ∷ 5 ∷ 6 ∷ 6 ∷ []) (omega arith) (
        omega arith,
        (omega arith, (omega arith, (omega arith, (omega arith, (omega arith, tt))))),
      );
  rights = tt;
  known = (omega arith, (omega arith, (omega arith, (omega arith, tt))));
  size = refl;
  short = omega arith;
}

pack_grammar-IsTables_example :
    (g : Grammar) × (precs : List (ℕ × Assoc)) × (pack_grammar read_rules ≡ done (g, precs))
    × IsTables g
    × IsPacked g
pack_grammar-IsTables_example = pack_grammar-IsTables read_rules read_rules-IsSource

abbrev rrhs_of : Run (Grammar × List (ℕ × Assoc)) → List ℕ × List (ℕ × Assoc)
rrhs_of (done (g, precs)) = (map (λ r. g.rrhs r) (0 ∷ 1 ∷ 2 ∷ 3 ∷ 4 ∷ 5 ∷ []), precs)
rrhs_of fault = ([], [])
rrhs_of abort = ([], [])
rrhs_of stuck = ([], [])

pack_grammar_runs :
    rrhs_of (pack_grammar read_rules)
    ≡ (0 ∷ 0 ∷ 1 ∷ 4 ∷ 6 ∷ 8 ∷ [], (0, token) ∷ (0, token) ∷ (1, left) ∷ [])
unfolding pack_grammar pack_rules take_rule rule_entries rule_prec last_term
pack_grammar_runs = refl
