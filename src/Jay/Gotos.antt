-- ===== src/Jay/Gotos.antt =====
-- The tables of jay/lalr.c: the arrays of the states' targets and rules, the gotos, which are the
-- transitions of the automaton on variables, set_goto_map and map_goto. Numbers are those that fit
-- the code's short. Allocated memory is zero.
pub mod Find
pub mod Sizes
use llc.Common.{ℕ, zero, suc, ◌+◌, ◌-◌, ◌/◌}
use llc.Common.{
  Bool, true, false, Option, none, some, List, [], ◌∷◌, ◌++◌, get_elem?, get_or, set, replicate,
  take, Run, done, fault, abort, stuck, ◌>>=◌, leb, ltb, ◌==◌, if◌then◌else◌,
}
use mathlib.Core.List.{reverse}
use llc.Jay.Grammar.{maxshort, Grammar, nvars}
use llc.Jay.Lr0.{Core}
use llc.Jay.Automaton.{Automaton, Shifts, Reductions}

unfoldable pub core_loop : List Core → List (Option Core) → List (Option Core)
core_loop [] table = table
core_loop (sp ∷ states) table = core_loop states (set table sp.number (some sp))

-- set_state_table, `none` for null.
unfoldable pub set_state_table : Automaton → List (Option Core)
set_state_table a = core_loop a.store.states (replicate a.store.nstates none)

unfoldable pub symbol_loop : List Core → List ℕ → List ℕ
symbol_loop [] table = table
symbol_loop (sp ∷ states) table = symbol_loop states (set table sp.number sp.accessing_symbol)

unfoldable pub set_accessing_symbol : Automaton → List ℕ
set_accessing_symbol a = symbol_loop a.store.states (replicate a.store.nstates 0)

unfoldable pub shift_loop : List Shifts → List (Option Shifts) → List (Option Shifts)
shift_loop [] table = table
shift_loop (sp ∷ shifts) table = shift_loop shifts (set table sp.number (some sp))

-- set_shift_table, `none` for null.
unfoldable pub set_shift_table : Automaton → List (Option Shifts)
set_shift_table a = shift_loop a.shifts (replicate a.store.nstates none)

unfoldable pub reduction_loop :
    List Reductions → List (Option Reductions) → List (Option Reductions)
reduction_loop [] table = table
reduction_loop (rp ∷ reductions) table = reduction_loop reductions (set table rp.number (some rp))

-- set_reduction_table.
unfoldable pub set_reduction_table : Automaton → List (Option Reductions)
set_reduction_table a = reduction_loop a.reductions (replicate a.store.nstates none)

-- goto_map or temp_map, from the first variable on.
pub record Counted : Type 0 where
  pub ngotos : ℕ
  pub goto_map : List ℕ

-- The inner loop that counts, over the targets from the last one on.
unfoldable pub count_targets : Grammar → List ℕ → List ℕ → Counted → Run Counted
count_targets g accessing_symbol [] c = done c
count_targets g accessing_symbol (k ∷ targets) c =
    let symbol = get_or accessing_symbol k 0 in
    let v = symbol - g.start_symbol in
    let rest =
      count_targets g accessing_symbol targets (record {
        ngotos = c.ngotos + 1;
        goto_map = set c.goto_map v (get_or c.goto_map v 0 + 1);
      }) in
    if ltb symbol g.start_symbol then done c else if c.ngotos == maxshort then abort else rest

-- The loop that counts the gotos of each variable.
unfoldable pub count_gotos : Grammar → List ℕ → List Shifts → Counted → Run Counted
count_gotos g accessing_symbol [] c = done c
count_gotos g accessing_symbol (sp ∷ shifts) c =
    count_targets g accessing_symbol (reverse sp.shift) c >>= λ later.
    count_gotos g accessing_symbol shifts later

-- temp_map: the first goto of each variable, with `k` gotos before them.
unfoldable pub first_gotos : ℕ → List ℕ → List ℕ
first_gotos k [] = []
first_gotos k (n ∷ counts) = k ∷ first_gotos (k + n) counts

-- from_state and to_state while they are filled, with temp_map.
pub record Filling : Type 0 where
  pub temp_map : List ℕ
  pub from_state : List ℕ
  pub to_state : List ℕ

unfoldable pub fill_targets : Grammar → List ℕ → ℕ → List ℕ → Filling → Filling
fill_targets g accessing_symbol state1 [] f = f
fill_targets g accessing_symbol state1 (state2 ∷ targets) f =
    let symbol = get_or accessing_symbol state2 0 in
    let v = symbol - g.start_symbol in
    let k = get_or f.temp_map v 0 in
    let rest = fill_targets g accessing_symbol state1 targets (record {
      temp_map = set f.temp_map v (k + 1);
      from_state = set f.from_state k state1;
      to_state = set f.to_state k state2;
    }) in
    if ltb symbol g.start_symbol then f else rest

unfoldable pub fill_gotos : Grammar → List ℕ → List Shifts → Filling → Filling
fill_gotos g accessing_symbol [] f = f
fill_gotos g accessing_symbol (sp ∷ shifts) f =
    fill_gotos g accessing_symbol shifts
      (fill_targets g accessing_symbol sp.number (reverse sp.shift) f)

pub record Gotos : Type 0 where
  pub ngotos : ℕ
  pub goto_map : List ℕ
  pub from_state : List ℕ
  pub to_state : List ℕ

-- set_goto_map behind the loop that counts: goto_map ends with ngotos.
unfoldable pub place_gotos : Grammar → List ℕ → List Shifts → Counted → Gotos
place_gotos g accessing_symbol shifts c =
    let first = first_gotos 0 (take (nvars g) c.goto_map) ++ c.ngotos ∷ [] in
    let filled = fill_gotos g accessing_symbol shifts (record {
      temp_map = first;
      from_state = replicate c.ngotos 0;
      to_state = replicate c.ngotos 0;
    }) in
    record {
      ngotos = c.ngotos;
      goto_map = first;
      from_state = filled.from_state;
      to_state = filled.to_state;
    }

unfoldable pub set_goto_map : Grammar → List ℕ → List Shifts → Run Gotos
set_goto_map g accessing_symbol shifts =
    count_gotos g accessing_symbol shifts
      (record { ngotos = 0; goto_map = replicate (nvars g + 1) 0 })
    >>= λ c. done (place_gotos g accessing_symbol shifts c)

-- The loop of map_goto, on fuel. Where `high` becomes -1 the assertion fails.
unfoldable pub find_goto : List ℕ → ℕ → ℕ → ℕ → ℕ → Run ℕ
find_goto from_state state zero low high = stuck
find_goto from_state state (suc fuel) low high =
    let middle = (low + high) / 2 in
    let above = find_goto from_state state fuel (middle + 1) high in
    let below = find_goto from_state state fuel low (middle - 1) in
    if ltb high low then abort else elim (get_elem? from_state middle) [
      | none ↦ fault
      | some s ↦
          if s == state
          then done middle
          else if ltb s state
          then above
          else if middle == 0
          then abort
          else below
    ]

-- map_goto. The span shrinks in each turn, so that its length is enough fuel.
unfoldable pub map_goto : Grammar → Gotos → ℕ → ℕ → Run ℕ
map_goto g gotos state symbol =
    let low = get_or gotos.goto_map (symbol - g.start_symbol) 0 in
    let high = get_or gotos.goto_map (symbol + 1 - g.start_symbol) 0 in
    find_goto gotos.from_state state (high - low + 2) low high
