-- ===== src/Jay/Automaton.antt =====
-- jay/lr0.c: generate_states, which makes the LR(0) automaton: its states, the states to which each
-- of them shifts, and the rules by which it may reduce.
pub mod Sort
pub mod Shift
pub mod Generate
pub mod Start
use llc.Common.{ℕ, zero, suc, ◌+◌}
use llc.Common.{
  Option, none, some, List, [], ◌∷◌, ◌++◌, map, length, get_elem?, replicate, Run, done, fault,
  abort, stuck, ◌>>=◌, ltb, if◌then◌else◌,
}
use mathlib.Core.List.{reverse}
use llc.Jay.Grammar.{maxshort, Grammar, Entry, symbol, end_of, derives}
use llc.Jay.Closure.{closure}
use llc.Jay.Lr0.{Core, States, Kernels, allocate_itemsets, new_itemsets, get_state}

-- The inner loop of append_states, on the sorted entries before entry `i`, the nearest one first.
unfoldable pub insert_symbol : ℕ → List ℕ → List ℕ
insert_symbol s [] = s ∷ []
insert_symbol s (t ∷ before) =
    let moved = t ∷ insert_symbol s before in if ltb s t then moved else s ∷ t ∷ before

-- The outer loop, from the sorted entries and the others.
unfoldable pub sort_loop : List ℕ → List ℕ → List ℕ
sort_loop before [] = before
sort_loop before (s ∷ shift_symbol) = sort_loop (insert_symbol s before) shift_symbol

unfoldable pub sort_symbols : List ℕ → List ℕ
sort_symbols shift_symbol = reverse (sort_loop [] shift_symbol)

-- The loop that fills shiftset.
unfoldable pub shift_states : Grammar → Kernels → List ℕ → States → Run (List ℕ × States)
shift_states g ks [] st = done ([], st)
shift_states g ks (s ∷ symbols) st = get_state g ks s st >>= λ (k, st').
    shift_states g ks symbols st' >>= λ (shiftset, st''). done (k ∷ shiftset, st'')

-- append_states: shiftset.
unfoldable pub append_states : Grammar → Kernels → States → Run (List ℕ × States)
append_states g ks st = shift_states g ks (sort_symbols ks.shift_symbol) st

pub record Shifts : Type 0 where
  pub number : ℕ
  pub shift : List ℕ

pub record Reductions : Type 0 where
  pub number : ℕ
  pub rules : List ℕ

-- The states and the lists from first_shift and from first_reduction on.
pub record Automaton : Type 0 where
  pub store : States
  pub shifts : List Shifts
  pub reductions : List Reductions

-- `if (nshifts > 0) save_shifts()`.
unfoldable pub save_shifts : ℕ → List ℕ → List Shifts → List Shifts
save_shifts n [] shifts = shifts
save_shifts n (k ∷ shiftset) shifts = shifts ++ record { number = n; shift = k ∷ shiftset } ∷ []

-- redset, by the loop over the item set.
unfoldable pub redset : Grammar → List ℕ → List ℕ
redset g [] = []
redset g (i ∷ itemset) = elim (g.ritem i) [
  | symbol s ↦ redset g itemset
  | end_of r ↦ r ∷ redset g itemset
]

-- The part of save_reductions behind `if (count)`.
unfoldable pub add_reductions : ℕ → List ℕ → List Reductions → List Reductions
add_reductions n [] reductions = reductions
add_reductions n (r ∷ rules) reductions =
    reductions ++ record { number = n; rules = r ∷ rules } ∷ []

unfoldable pub save_reductions : Grammar → ℕ → List ℕ → List Reductions → List Reductions
save_reductions g n itemset reductions = add_reductions n (redset g itemset) reductions

-- The body of the loop of generate_states.
unfoldable pub process_state : Grammar → Core → Kernels → Automaton → Run (Kernels × Automaton)
process_state g this_state ks a =
    let itemset = closure g this_state.items in
    let filled = new_itemsets g ks itemset in
    append_states g filled a.store >>= λ (shiftset, store). done (
      filled,
      record {
        store = store;
        shifts = save_shifts this_state.number shiftset a.shifts;
        reductions = save_reductions g this_state.number itemset a.reductions;
      },
    )

-- The loop, on fuel; `this` is the place of this_state among the states.
unfoldable pub state_loop : Grammar → ℕ → ℕ → Kernels → Automaton → Run Automaton
state_loop g zero this ks a = stuck
state_loop g (suc fuel) this ks a = elim (get_elem? a.store.states this) [
  | none ↦ done a
  | some this_state ↦ process_state g this_state ks a >>= λ (filled, later).
      state_loop g fuel (this + 1) filled later
]

-- initialize_states, with the empty table of allocate_storage.
unfoldable pub initialize_states : Grammar → States
initialize_states g =
    let p : Core = record {
      number = 0;
      accessing_symbol = 0;
      items = map (λ r. g.rrhs r) (derives g g.start_symbol);
    } in
    record { states = p ∷ []; nstates = 1; state_set = replicate g.nitems [] }

-- generate_states. There are no more than MAXSHORT states, so that the fuel is enough.
unfoldable pub generate_states : Grammar → Run Automaton
generate_states g =
    state_loop g (maxshort + 2) 0 (allocate_itemsets g)
      (record { store = initialize_states g; shifts = []; reductions = [] })
