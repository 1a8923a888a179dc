-- ===== src/Jay/Mkpar.antt =====
-- jay/mkpar.c: the rows of parsing actions of the LR automaton. A row, a list linked by `next`, is a
-- List. The globals that describe the grammar and its automaton are a record; numbers are those
-- that fit the code's types short and int, and none of them is negative.
pub mod Rows
pub mod Unique
pub mod Defaults
use llc.Common.{ℕ, zero, suc, ◌+◌, ◌-◌, ◌*◌, ◌/◌, ◌%◌}
use llc.Common.{
  Bool, true, false, ◌&&◌, not, Option, none, some, List, [], ◌∷◌, map, get_or, set, drop,
  replicate, length, Run, done, fault,
}
use llc.Common.{ltb, ◌==◌, if◌then◌else◌}
use llc.Common.Bits.{test_bit}

-- SHIFT and REDUCE.
pub data Code : Type 0 where
  shift reduce : Code

-- LEFT, RIGHT, NONASSOC and TOKEN.
pub data Assoc : Type 0 where
  left right nonassoc token : Assoc

pub record Action : Type 0 where
  pub symbol : ℕ
  pub number : ℕ
  pub prec : ℕ
  pub action_code : Code
  pub assoc : Assoc
  pub suppressed : ℕ

abbrev pub is_shift : Action → Bool
is_shift a = elim a.action_code [ shift ↦ true | reduce ↦ false ]

-- The tables that the earlier passes leave. `shift_table` has `none` for a null pointer, and LA is
-- its words by index.
pub record Tables : Type 0 where
  pub start_symbol : ℕ
  pub ntokens : ℕ
  pub shift_table : ℕ → Option (List ℕ)
  pub accessing_symbol : ℕ → ℕ
  pub symbol_prec : ℕ → ℕ
  pub symbol_assoc : ℕ → Assoc
  pub rprec : ℕ → ℕ
  pub rassoc : ℕ → Assoc
  pub lookaheads : ℕ → ℕ
  pub la_ruleno : ℕ → ℕ
  pub la : ℕ → ℕ
  pub goal : ℕ

abbrev pub shift_action : Tables → ℕ → Action
shift_action g k = record {
  symbol = g.accessing_symbol k;
  number = k;
  prec = g.symbol_prec (g.accessing_symbol k);
  action_code = shift;
  assoc = g.symbol_assoc (g.accessing_symbol k);
  suppressed = 0;
}

-- The loop of get_shifts, which runs from the last target to the first and puts each action in
-- front of the row.
unfoldable pub shift_loop : Tables → List ℕ → List Action
shift_loop g [] = []
shift_loop g (k ∷ to_state) =
    let actions = shift_loop g to_state in
    if ltb (g.accessing_symbol k) g.start_symbol then shift_action g k ∷ actions else actions

unfoldable pub get_shifts : Tables → ℕ → List Action
get_shifts g stateno = elim (g.shift_table stateno) [
  | none ↦ []
  | some to_state ↦ shift_loop g to_state
]

abbrev pub reduce_action : Tables → ℕ → ℕ → Action
reduce_action g ruleno symbol = record {
  symbol = symbol;
  number = ruleno;
  prec = g.rprec ruleno;
  action_code = reduce;
  assoc = g.rassoc ruleno;
  suppressed = 0;
}

-- The three loops of add_reduce, from the last one, which passes reductions by lower rules.
unfoldable pub insert_reduction : Action → List Action → List Action
insert_reduction temp [] = temp ∷ []
insert_reduction temp (next ∷ actions) =
    let rest = insert_reduction temp actions in
    if next.symbol == temp.symbol && (not (is_shift next) && ltb next.number temp.number)
    then next ∷ rest
    else temp ∷ next ∷ actions

-- The second one passes shifts.
unfoldable pub insert_after_shifts : Action → List Action → List Action
insert_after_shifts temp [] = temp ∷ []
insert_after_shifts temp (next ∷ actions) =
    let rest = insert_after_shifts temp actions in
    if next.symbol == temp.symbol && is_shift next
    then next ∷ rest
    else insert_reduction temp (next ∷ actions)

-- The first one passes the actions on lower symbols.
unfoldable pub insert_action : Action → List Action → List Action
insert_action temp [] = temp ∷ []
insert_action temp (next ∷ actions) =
    let rest = insert_action temp actions in
    if ltb next.symbol temp.symbol then next ∷ rest else insert_after_shifts temp (next ∷ actions)

abbrev pub add_reduce : Tables → List Action → ℕ → ℕ → List Action
add_reduce g actions ruleno symbol = insert_action (reduce_action g ruleno symbol) actions

-- WORDSIZE(ntokens).
abbrev pub token_set_size : Tables → ℕ
token_set_size g = (g.ntokens + 31) / 32

-- BIT(rowp, j), for the row of lookahead `i`.
abbrev pub looks_ahead : Tables → ℕ → ℕ → Bool
looks_ahead g i j = test_bit (g.la (i * token_set_size g + j / 32)) (j % 32)

-- The loop over `j`, from below its argument down.
unfoldable pub token_loop : Tables → ℕ → ℕ → List Action → List Action
token_loop g i zero actions = actions
token_loop g i (suc j) actions =
    token_loop g i j (if looks_ahead g i j then add_reduce g actions (g.la_ruleno i) j else actions)

-- The loop over `i`, which has `count` rounds left.
unfoldable pub lookahead_loop : Tables → ℕ → ℕ → List Action → List Action
lookahead_loop g i zero actions = actions
lookahead_loop g i (suc count) actions =
    lookahead_loop g (i + 1) count (token_loop g i g.ntokens actions)

unfoldable pub add_reductions : Tables → ℕ → List Action → List Action
add_reductions g stateno actions =
    lookahead_loop g (g.lookaheads stateno) (g.lookaheads (stateno + 1) - g.lookaheads stateno)
      actions

unfoldable pub parse_actions : Tables → ℕ → List Action
parse_actions g stateno = add_reductions g stateno (get_shifts g stateno)

-- find_final_state: the loop over the targets of state 0, with `i` rounds left.
unfoldable pub final_loop : Tables → List ℕ → ℕ → ℕ → ℕ
final_loop g to_state final_state zero = final_state
final_loop g to_state final_state (suc i) =
    let k = get_or to_state i 0 in
    let rest = final_loop g to_state k i in if g.accessing_symbol k == g.goal then k else rest

-- What remove_conflicts makes of an action on the symbol of the preferred action `pref`.
pub data Judgement : Type 0 where
  shift_reduce reduce_reduce prefer_new prefer_old neither : Judgement

unfoldable pub judge : Bool → Action → Action → Judgement
judge is_final pref p =
    if is_final && p.symbol == 0
    then shift_reduce
    else if is_shift pref
    then (if ltb 0 pref.prec && ltb 0 p.prec
        then (if ltb pref.prec p.prec
            then prefer_new
            else if ltb p.prec pref.prec
            then prefer_old
            else elim pref.assoc [
              | left ↦ prefer_new
              | right ↦ prefer_old
              | nonassoc ↦ neither
              | token ↦ neither
            ])
        else shift_reduce)
    else reduce_reduce

abbrev pub suppress : ℕ → Action → Action
suppress n a = record a { suppressed = n }

-- The preferred action and the actions behind it when the loop over a row ends, with SRcount and
-- RRcount from there on.
pub record Resolved : Type 0 where
  pub pref : Action
  pub rest : List Action
  pub sr_count : ℕ
  pub rr_count : ℕ

-- The loop over a row: `pref` is followed by the rest of the row.
unfoldable pub resolve : Bool → Action → List Action → Resolved
resolve is_final pref [] = record { pref = pref; rest = []; sr_count = 0; rr_count = 0 }
resolve is_final pref (p ∷ actions) =
    let new = resolve is_final p actions in
    let old = resolve is_final pref actions in
    let gone = resolve is_final (suppress 2 pref) actions in
    if p.symbol == pref.symbol
    then elim (judge is_final pref p) [
      | shift_reduce ↦ record old { rest = suppress 1 p ∷ old.rest; sr_count = old.sr_count + 1 }
      | reduce_reduce ↦ record old { rest = suppress 1 p ∷ old.rest; rr_count = old.rr_count + 1 }
      | prefer_new ↦ record new { pref = suppress 2 pref; rest = new.pref ∷ new.rest }
      | prefer_old ↦ record old { rest = suppress 2 p ∷ old.rest }
      | neither ↦ record gone { rest = suppress 2 p ∷ gone.rest }
    ]
    else record new { pref = pref; rest = new.pref ∷ new.rest }

-- A row without its conflicts, and the two counts.
unfoldable pub resolve_row : Bool → List Action → List Action × ℕ × ℕ
resolve_row is_final [] = ([], 0, 0)
resolve_row is_final (pref ∷ actions) =
    let r = resolve is_final pref actions in (r.pref ∷ r.rest, r.sr_count, r.rr_count)

-- What remove_conflicts leaves: the rows, SRconflicts and RRconflicts, and the two totals.
pub record Conflicts : Type 0 where
  pub parser : List (List Action)
  pub sr_conflicts : List ℕ
  pub rr_conflicts : List ℕ
  pub sr_total : ℕ
  pub rr_total : ℕ

-- The loop over the rows from state `i` on.
unfoldable pub conflict_loop : ℕ → ℕ → List (List Action) → Conflicts
conflict_loop final_state i [] = record {
  parser = [];
  sr_conflicts = [];
  rr_conflicts = [];
  sr_total = 0;
  rr_total = 0;
}
conflict_loop final_state i (row ∷ parser) =
    let (row', sr, rr) = resolve_row (i == final_state) row in
    let c = conflict_loop final_state (i + 1) parser in
    record {
      parser = row' ∷ c.parser;
      sr_conflicts = sr ∷ c.sr_conflicts;
      rr_conflicts = rr ∷ c.rr_conflicts;
      sr_total = sr + c.sr_total;
      rr_total = rr + c.rr_total;
    }

abbrev pub is_live : Action → Bool
is_live a = a.suppressed == 0

-- The loop of sole_reduction, with its two variables; 0 stands for each of its `return (0)`.
unfoldable pub sole_loop : ℕ → ℕ → List Action → ℕ
sole_loop count ruleno [] = if count == 0 then 0 else ruleno
sole_loop count ruleno (p ∷ actions) =
    let skipped = sole_loop count ruleno actions in
    let taken = sole_loop (if p.symbol == 1 then count else count + 1) p.number actions in
    if is_live p
    then (if is_shift p then 0 else if ltb 0 ruleno && not (p.number == ruleno) then 0 else taken)
    else skipped

unfoldable pub sole_reduction : List Action → ℕ
sole_reduction actions = sole_loop 0 0 actions

-- defreds.
abbrev pub default_reductions : List (List Action) → List ℕ
default_reductions parser = map sole_reduction parser

-- find_final_state, for the value that final_state has before.
unfoldable pub find_final_state : Tables → ℕ → Run ℕ
find_final_state g final_state = elim (g.shift_table 0) [
  | none ↦ fault
  | some to_state ↦ done (final_loop g to_state final_state (length to_state))
]

-- The loops of unused_rules: over a row, and over the rows.
unfoldable pub mark_row : List Action → List Bool → List Bool
mark_row [] rules_used = rules_used
mark_row (p ∷ actions) rules_used =
    mark_row actions
      (if not (is_shift p) && is_live p then set rules_used p.number true else rules_used)

unfoldable pub mark_rules : List (List Action) → List Bool → List Bool
mark_rules [] rules_used = rules_used
mark_rules (row ∷ parser) rules_used = mark_rules parser (mark_row row rules_used)

unfoldable pub count_unused : List Bool → ℕ
count_unused [] = 0
count_unused (used ∷ rules_used) =
    if used then count_unused rules_used else count_unused rules_used + 1

-- unused_rules: rules_used and nunused, which counts from rule 3 on.
unfoldable pub unused_rules : ℕ → List (List Action) → List Bool × ℕ
unused_rules nrules parser =
    let rules_used = mark_rules parser (replicate nrules false) in
    (rules_used, count_unused (drop 3 rules_used))
