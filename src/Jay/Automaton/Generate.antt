-- ===== src/Jay/Automaton/Generate.antt =====
-- generate_states makes the LR(0) automaton of the grammar.
use llc.Common.{
  ℕ, zero, suc, ◌+◌, ◌≤◌, ◌<◌, ◌≡◌, ◌≢◌, ◌↔◌, ◌⊎◌, inl, inr, refl, ap, subst, ◌∙◌, arith,
}
use llc.Common.{
  Option, none, some, List, [], ◌∷◌, length, get_elem?, get_elem?-some-lt, get_elem?-none-ge, Run,
  done, abort, ◌>>=◌, Among, Option-cases,
}
use llc.Jay.Grammar.{maxshort, Grammar}
use llc.Jay.Closure.{closure}
use llc.Jay.Closure.First.{IsGrammar}
use llc.Jay.Closure.Order.{IsOrdered, closure-Rising}
use llc.Jay.Lr0.{Kernels, States, Core, new_itemsets}
use llc.Jay.Lr0.Kernel.{kernel_of}
use llc.Jay.Lr0.Itemsets.{Allocated, new_itemsets-Kerneled}
use llc.Jay.Lr0.Reached.{moved}
use llc.Jay.Lr0.State.{IsStore, Extends}
use llc.Jay.Automaton.{
  Automaton, Shifts, Reductions, sort_symbols, append_states, save_shifts, save_reductions,
  process_state, state_loop, initialize_states,
}
use llc.Jay.Automaton.Sort.{Growing, AllBelow, sort_symbols_lem}
use llc.Jay.Automaton.Shift.{Ended, Full, Targets, Targets-Extends, shift_states_cases}

-- What is kept for a state: the states its symbols lead to, with the symbols in order.
pub record IsRow (g : Grammar) (st : States) (p : Core) (shiftset : List ℕ) : Type 0 where
  pub symbols : List ℕ
  pub growing : Growing 0 symbols
  pub members :
      (s : ℕ)
      → Among s symbols ↔ ((0 < s) × (s < g.nsyms) × (kernel_of g s (closure g p.items) ≢ []))
  pub targets : Targets g st (closure g p.items) symbols shiftset

-- The lists of shifts and reductions of the first `n` states.
pub data Rows (g : Grammar) (st : States) : ℕ → List Shifts → List Reductions → Type 0 where
  start : Rows g st 0 [] []
  next :
      {n : ℕ} {shifts : List Shifts} {reductions : List Reductions} (p : Core) (shiftset : List ℕ)
      → Rows g st n shifts reductions
      → get_elem? st.states n ≡ some p
      → IsRow g st p shiftset
      → Rows g st
          (n + 1)
          (save_shifts p.number shiftset shifts)
          (save_reductions g p.number (closure g p.items) reductions)

Rows-extends :
    (g : Grammar) (st st' : States) (n : ℕ) (shifts : List Shifts) (reductions : List Reductions)
    → Extends st st'
    → Rows g st n shifts reductions
    → Rows g st' n shifts reductions
Rows-extends g st st' n shifts reductions more start = start
Rows-extends g st st' n shifts reductions more (next p shiftset rows at row) =
    next p shiftset (Rows-extends g st st' _ _ _ more rows) (more _ p at) (record {
      symbols = row.symbols;
      growing = row.growing;
      members = row.members;
      targets = Targets-Extends g st st' (closure g p.items) row.symbols shiftset more row.targets;
    })

-- The tables of a grammar that generate_states works on.
pub record IsTables (g : Grammar) : Type 0 where
  pub grammar : IsGrammar g
  pub ordered : IsOrdered g
  pub ended : Ended g
  pub short : g.nitems ≤ maxshort

all_below : (hi : ℕ) (xs : List ℕ) → ((x : ℕ) → Among x xs → x < hi) → AllBelow hi xs
all_below hi [] h = tt
all_below hi (x ∷ xs) h = (h x (inl refl), all_below hi xs (λ y m. h y (inr m)))

module _ (g : Grammar) (ok : IsTables g) where
  -- The first `n` states have been processed.
  pub record Processed (n : ℕ) (ks : Kernels) (a : Automaton) : Type 0 where
    pub store : IsStore g a.store
    pub allocated : Allocated g ks
    pub reached : n ≤ length a.store.states
    pub begun : Extends (initialize_states g) a.store
    pub rows : Rows g a.store n a.shifts a.reductions

  process_state_cases :
      (n : ℕ) (p : Core) (ks : Kernels) (a : Automaton)
      → Processed n ks a
      → get_elem? a.store.states n ≡ some p
      → ((process_state g p ks a ≡ abort) × Full g)
        ⊎ ((got : Kernels × Automaton) × (process_state g p ks a ≡ done got)
            × Processed (n + 1) got.0 got.1)
  unfolding process_state append_states
  process_state_cases n p ks a before at =
      let itemset = closure g p.items in
      let rising = closure-Rising g p.items ok.grammar ok.ordered (before.store.in_order n p at) in
      let filled = new_itemsets g ks itemset in
      let kerneled =
        new_itemsets-Kerneled g ks itemset ok.grammar.in_range ok.short before.allocated rising in
      let (growing, members) =
        sort_symbols_lem g.nsyms filled.shift_symbol kerneled.distinct
          (all_below g.nsyms filled.shift_symbol (λ s m. ((kerneled.shifted s).0 m).1)) in
      elim (shift_states_cases g ok.ended filled itemset kerneled rising ok.short
        (λ s pos ne. moved s (before.store.reached n p at) pos ne)
        (sort_symbols filled.shift_symbol) a.store before.store (λ s m. (members s).0 m)) [
          | inl (stops, full) ↦ inl (rw stops refl, full)
          | inr ((shiftset, store), e, got) ↦ inr (
            (filled, _),
            ap
                (λ m. m >>= λ (set_of, st). done (
                  filled,
                  record {
                    store = st;
                    shifts = save_shifts p.number set_of a.shifts;
                    reductions = save_reductions g p.number itemset a.reductions;
                  },
                ))
                e,
            record {
              store = got.store;
              allocated = kerneled.allocated;
              reached =
                  let lt = get_elem?-some-lt store.states n p (got.extends n p at) in omega arith;
              begun = λ m q h. got.extends m q (before.begun m q h);
              rows =
                  next p shiftset (Rows-extends g a.store store n _ _ got.extends before.rows)
                    (got.extends n p at)
                    (record {
                      symbols = sort_symbols filled.shift_symbol;
                      growing = growing;
                      members = λ s. (
                        λ m. (kerneled.shifted s).0 ((members s).0 m),
                        λ h. (members s).1 ((kerneled.shifted s).1 h),
                      );
                      targets = got.targets;
                    });
            },
          )
        ]

  -- What the loop does at its `n`th state, by what it finds there.
  turn : ℕ → ℕ → Kernels → Automaton → Option Core → Run Automaton
  turn fuel n ks a none = done a
  turn fuel n ks a (some p) =
      process_state g p ks a >>= λ (filled, later). state_loop g fuel (n + 1) filled later

  turn-elim :
      (fuel n : ℕ) (ks : Kernels) (a : Automaton) (o : Option Core)
      → elim o [
        | none ↦ done a
        | some p ↦
            process_state g p ks a >>= λ (filled, later). state_loop g fuel (n + 1) filled later
      ]
        ≡ turn fuel n ks a o
  unfolding turn
  turn-elim fuel n ks a none = refl
  turn-elim fuel n ks a (some p) = refl

  state_loop-turn :
      (fuel n : ℕ) (ks : Kernels) (a : Automaton) {o : Option Core}
      → get_elem? a.store.states n ≡ o
      → state_loop g (suc fuel) n ks a ≡ turn fuel n ks a o
  unfolding state_loop
  state_loop-turn fuel n ks a e =
      turn-elim fuel n ks a (get_elem? a.store.states n) ∙ ap (turn fuel n ks a) e

  -- The automaton that generate_states leaves.
  pub record IsAutomaton (a : Automaton) : Type 0 where
    pub store : IsStore g a.store
    pub begun : Extends (initialize_states g) a.store
    pub rows : Rows g a.store (length a.store.states) a.shifts a.reductions

  pub state_loop_cases :
      (fuel n : ℕ) (ks : Kernels) (a : Automaton)
      → Processed n ks a
      → maxshort + 1 ≤ fuel + n
      → ((state_loop g fuel n ks a ≡ abort) × Full g)
        ⊎ ((a' : Automaton) × (state_loop g fuel n ks a ≡ done a') × IsAutomaton a')
  unfolding turn
  state_loop_cases zero n ks a before enough =
      let x = before.reached in
      let y = before.store.count in let z = before.store.bounded in absurd (omega arith)
  state_loop_cases (suc fuel) n ks a before enough =
      elim (Option-cases (get_elem? a.store.states n)) [
        | inl over ↦ inr (
          a,
          state_loop-turn fuel n ks a over,
          record {
            store = before.store;
            begun = before.begun;
            rows =
                subst (λ k. Rows g a.store k a.shifts a.reductions)
                  (let x = before.reached in
                    let y = get_elem?-none-ge a.store.states n over in omega arith)
                  before.rows;
          },
        )
        | inr (p, at) ↦ elim (process_state_cases n p ks a before at) [
          | inl (stops, full) ↦ inl (state_loop-turn fuel n ks a at ∙ rw stops refl, full)
          | inr ((filled, later), e, after) ↦
              elim (state_loop_cases fuel (n + 1) filled later after (omega arith)) [
                | inl (stops, full) ↦ inl (state_loop-turn fuel n ks a at ∙ rw e stops, full)
                | inr (a', e', result) ↦ inr (a', state_loop-turn fuel n ks a at ∙ rw e e', result)
              ]
        ]
      ]
