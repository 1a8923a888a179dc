-- ===== src/Jay/Automaton/Shift.antt =====
-- append_states finds the states that a state's symbols lead to.
use llc.Common.{ℕ, ◌+◌, ◌≤◌, ◌<◌, ◌≡◌, ◌≢◌, ◌⊎◌, inl, inr, refl, ap, ◌∙◌, arith}
use llc.Common.{Option, none, some, List, [], ◌∷◌, done, fault, abort, Among}
use llc.Jay.Grammar.{maxshort, Grammar, symbol}
use llc.Jay.Closure.Order.{Rising}
use llc.Jay.Lr0.{Kernels, States, kernel, get_items, get_state}
use llc.Jay.Lr0.Kernel.{kernel_of, kernel_of-nil, item_step, taken, left_out}
use llc.Jay.Lr0.Itemsets.{Kerneled}
use llc.Jay.Lr0.Reached.{Reached}
use llc.Jay.Lr0.State.{
  IsStore, IsState, Extends, Missing, Got, Behind, get_items-Got, get_items_cases,
}
use llc.Jay.Automaton.{shift_states}

-- A symbol in ritem is not its last entry.
abbrev pub Ended : Grammar → Type 0
Ended g = (i s : ℕ) → g.ritem i ≡ symbol s → i + 1 < g.nitems

kernel_of-Behind :
    (g : Grammar) (s : ℕ) (itemset : List ℕ)
    → kernel_of g s itemset ≢ []
    → Behind g s (kernel_of g s itemset)
kernel_of-Behind g s [] ne = absurd (ne (kernel_of-nil g s))
kernel_of-Behind g s (i ∷ itemset) ne = elim (item_step g s i itemset) [
  | taken e on made ↦ rw made (i, refl, e)
  | left_out ne' off made ↦ rw made (kernel_of-Behind g s itemset (λ e. ne (made ∙ e)))
]

kernel_of-Rising :
    (g : Grammar) (s lo lo' : ℕ) (itemset : List ℕ)
    → Ended g
    → lo' ≤ lo + 1
    → Rising lo g.nitems itemset
    → Rising lo' g.nitems (kernel_of g s itemset)
kernel_of-Rising g s lo lo' [] ended le rising = rw (kernel_of-nil g s) tt
kernel_of-Rising g s lo lo' (i ∷ itemset) ended le (low, high, rising) =
    elim (item_step g s i itemset) [
      | taken e on made ↦ rw made (
        omega arith,
        ended i s e,
        kernel_of-Rising g s (i + 1) (i + 1 + 1) itemset ended (omega arith) rising,
      )
      | left_out ne off made ↦
          rw made (kernel_of-Rising g s (i + 1) lo' itemset ended (omega arith) rising)
    ]

-- Each symbol has the number of the state with its kernel.
abbrev pub Targets : Grammar → States → List ℕ → List ℕ → List ℕ → Type 0
Targets g st itemset [] [] = Unit
Targets g st itemset [] (k ∷ shiftset) = ⊥
Targets g st itemset (s ∷ symbols) [] = ⊥
Targets g st itemset (s ∷ symbols) (k ∷ shiftset) =
    IsState st k s (kernel_of g s itemset) × Targets g st itemset symbols shiftset

pub IsState-Extends :
    (st st' : States) (k s : ℕ) (items : List ℕ)
    → Extends st st'
    → IsState st k s items
    → IsState st' k s items
IsState-Extends st st' k s items more is = record {
  core = is.core;
  at = more k is.core is.at;
  same_items = is.same_items;
  symbol_in = is.symbol_in;
  later = is.later;
}

pub Targets-Extends :
    (g : Grammar) (st st' : States) (itemset symbols shiftset : List ℕ)
    → Extends st st'
    → Targets g st itemset symbols shiftset
    → Targets g st' itemset symbols shiftset
Targets-Extends g st st' itemset [] [] more t = tt
Targets-Extends g st st' itemset [] (k ∷ shiftset) more t = t
Targets-Extends g st st' itemset (s ∷ symbols) [] more t = t
Targets-Extends g st st' itemset (s ∷ symbols) (k ∷ shiftset) more (is, t) = (
  IsState-Extends st st' k s (kernel_of g s itemset) more is,
  Targets-Extends g st st' itemset symbols shiftset more t,
)

-- There are MAXSHORT states, all of them with item sets of the automaton, the later ones with different
-- ones, and the automaton has another one, which none of the later states has.
abbrev pub Full : Grammar → Type 0
Full g =
    (st : States) × IsStore g st
    × (st.nstates ≡ maxshort)
    × ((items : List ℕ) × Reached g items × Missing st items)

pub record Shifted (g : Grammar) (itemset symbols : List ℕ) (st : States) (got : List ℕ × States)
    : Type 0 where
  pub store : IsStore g got.1
  pub extends : Extends st got.1
  pub targets : Targets g got.1 itemset symbols got.0

get_state-kernel :
    (g : Grammar) (ks : Kernels) (s : ℕ) (st : States) (items : List ℕ)
    → kernel ks s ≡ some items
    → get_state g ks s st ≡ get_items g s items st
unfolding get_state
get_state-kernel g ks s st items e =
    ap (λ (o : Option (List ℕ)). elim o [ none ↦ fault | some items' ↦ get_items g s items' st ]) e

module _ (g : Grammar) (ended : Ended g) (ks : Kernels) (itemset : List ℕ) where
  module _ (ok : Kerneled g ks itemset) (rising : Rising 0 g.nitems itemset)
      (short : g.nitems ≤ maxshort)
      (reached : (s : ℕ)
        → 0 < s
        → kernel_of g s itemset ≢ []
        → Reached g (kernel_of g s itemset)) where
    get_state_cases :
        (s : ℕ) (st : States)
        → IsStore g st
        → Among s ks.shift_symbol
        → ((get_state g ks s st ≡ abort) × Full g)
          ⊎ ((got : ℕ × States) × (get_state g ks s st ≡ done got)
              × Got g s (kernel_of g s itemset) st got)
    get_state_cases s st store m =
        let (pos, lt, ne) = (ok.shifted s).0 m in
        let items = kernel_of g s itemset in
        let behind = kernel_of-Behind g s itemset ne in
        let in_order = kernel_of-Rising g s 0 0 itemset ended (omega arith) rising in
        let read = get_state-kernel g ks s st items (ok.kernels s m) in
        elim (get_items_cases g s items st short store behind in_order) [
          | inl (stops, full, missing) ↦
              let bounded = store.bounded in
              inl (rw read stops, (st, store, omega arith, (items, reached s pos ne, missing)))
          | inr (got, e) ↦ inr (
            got,
            rw read e,
            get_items-Got g s items st got store behind in_order (reached s pos ne) e,
          )
        ]

    pub shift_states_cases :
        (symbols : List ℕ) (st : States)
        → IsStore g st
        → ((s : ℕ) → Among s symbols → Among s ks.shift_symbol)
        → ((shift_states g ks symbols st ≡ abort) × Full g)
          ⊎ ((got : List ℕ × States) × (shift_states g ks symbols st ≡ done got)
              × Shifted g itemset symbols st got)
    unfolding shift_states
    shift_states_cases [] st store within =
        inr (([], st), refl, record { store = store; extends = λ n p h. h; targets = tt })
    shift_states_cases (s ∷ symbols) st store within =
        elim (get_state_cases s st store (within s (inl refl))) [
          | inl (stops, full) ↦ inl (rw stops refl, full)
          | inr ((k, st'), e, got) ↦
              elim (shift_states_cases symbols st' got.store (λ x m. within x (inr m))) [
                | inl (stops, full) ↦ inl (rw (e, stops) refl, full)
                | inr ((shiftset, st''), e', rest) ↦ inr (
                  (k ∷ shiftset, st''),
                  rw (e, e') refl,
                  record {
                    store = rest.store;
                    extends = λ n p h. rest.extends n p (got.extends n p h);
                    targets = (
                      IsState-Extends st' st'' k s (kernel_of g s itemset) rest.extends got.state,
                      rest.targets,
                    );
                  },
                )
              ]
        ]
