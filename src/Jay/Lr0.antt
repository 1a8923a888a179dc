-- ===== src/Jay/Lr0.antt =====
-- jay/lr0.c: the states of the LR(0) automaton. The passes share global tables; here a record holds
-- what they write. A pointer into kernel_items is its index, and null is none.
pub mod Kernel
pub mod Fill
pub mod Loop
pub mod Space
pub mod Itemsets
pub mod Store
pub mod Reached
pub mod State
use llc.Common.{ℕ, zero, suc, ◌+◌, ◌-◌}
use llc.Common.{
  Bool, true, false, ◌&&◌, Option, none, some, List, [], ◌∷◌, ◌++◌, length, get_or, set, replicate,
  Run, done, fault, abort, stuck, ◌>>=◌, ltb, leb, ◌==◌, if◌then◌else◌,
}
use llc.Jay.Grammar.{Grammar, Entry, symbol, end_of, derives, maxshort, to_short}
use llc.Jay.Closure.{closure}

abbrev pub count_entry : ℕ × List ℕ → Entry → ℕ × List ℕ
count_entry (count, symbol_count) (symbol s) =
    (count + 1, set symbol_count s (get_or symbol_count s 0 + 1))
count_entry counts (end_of r) = counts

-- The first loop of allocate_itemsets, with `left` entries from entry `i` on: `count` and
-- `symbol_count`.
unfoldable pub count_loop : Grammar → ℕ → ℕ → ℕ × List ℕ → ℕ × List ℕ
count_loop g zero i counts = counts
count_loop g (suc left) i counts = count_loop g left (i + 1) (count_entry counts (g.ritem i))

-- `count` and `symbol_count` behind that loop.
unfoldable pub counts : Grammar → ℕ × List ℕ
counts g = count_loop g g.nitems 0 (0, replicate g.nsyms 0)

-- The loop that sets kernel_base.
unfoldable pub base_loop : ℕ → List ℕ → List ℕ
base_loop count [] = []
base_loop count (n ∷ symbol_count) = count ∷ base_loop (count + n) symbol_count

-- What new_itemsets fills: shift_symbol is its first nshifts entries.
pub record Kernels : Type 0 where
  pub kernel_base : List ℕ
  pub kernel_end : List (Option ℕ)
  pub kernel_items : List ℕ
  pub shift_symbol : List ℕ

-- allocate_itemsets. The entries of kernel_end and kernel_items are not yet set.
unfoldable pub allocate_itemsets : Grammar → Kernels
allocate_itemsets g =
    let (count, symbol_count) = counts g in
    record {
      kernel_base = base_loop 0 symbol_count;
      kernel_end = replicate g.nsyms none;
      kernel_items = replicate count 0;
      shift_symbol = [];
    }

-- `*ksp++ = i + 1; kernel_end[symbol] = ksp`: the entries of kernel_items are shorts.
unfoldable pub put_item : ℕ → ℕ → ℕ → Kernels → Kernels
put_item i s ksp ks = record ks {
  kernel_items = set ks.kernel_items ksp (to_short (i + 1));
  kernel_end = set ks.kernel_end s (some (ksp + 1));
}

-- What new_itemsets does with item `i` before symbol `s`.
unfoldable pub add_item : ℕ → ℕ → Kernels → Kernels
add_item i s ks =
    if ltb 0 s
    then elim (get_or ks.kernel_end s none) [
      | some ksp ↦ put_item i s ksp ks
      | none ↦
          put_item i s (get_or ks.kernel_base s 0)
            (record ks { shift_symbol = ks.shift_symbol ++ s ∷ [] })
    ]
    else ks

-- The loop over the item set.
unfoldable pub item_loop : Grammar → Kernels → List ℕ → Kernels
item_loop g ks [] = ks
item_loop g ks (i ∷ itemset) =
    item_loop g (elim (g.ritem i) [ symbol s ↦ add_item i s ks | end_of r ↦ ks ]) itemset

unfoldable pub new_itemsets : Grammar → Kernels → List ℕ → Kernels
new_itemsets g ks itemset =
    item_loop g (record ks { kernel_end = replicate g.nsyms none; shift_symbol = [] }) itemset

-- `n` entries of an array.
unfoldable pub read_items : List ℕ → ℕ → ℕ → List ℕ
read_items kernel_items base zero = []
read_items kernel_items base (suc n) =
    get_or kernel_items base 0 ∷ read_items kernel_items (base + 1) n

-- The items from kernel_base[symbol] up to kernel_end[symbol].
abbrev run_to : List ℕ → ℕ → Option ℕ → Option (List ℕ)
run_to kernel_items base none = none
run_to kernel_items base (some iend) = some (read_items kernel_items base (iend - base))

abbrev pub kernel : Kernels → ℕ → Option (List ℕ)
kernel ks s = run_to ks.kernel_items (get_or ks.kernel_base s 0) (get_or ks.kernel_end s none)

-- A state, less its links.
pub record Core : Type 0 where
  pub number : ℕ
  pub accessing_symbol : ℕ
  pub items : List ℕ

-- The states in the order of `next`, from first_state to last_state, and for each key the states in
-- the order of `link`.
pub record States : Type 0 where
  pub states : List Core
  pub nstates : ℕ
  pub state_set : List (List Core)

-- new_state.
unfoldable pub new_state : ℕ → List ℕ → States → Run (Core × States)
new_state s items st =
    if leb maxshort st.nstates
    then abort
    else (let p : Core = record { number = st.nstates; accessing_symbol = s; items = items } in
        done (p, record st { states = st.states ++ p ∷ []; nstates = st.nstates + 1 }))

-- `*isp1++ != *isp2++` on two runs of items.
unfoldable pub same_items : List ℕ → List ℕ → Bool
same_items [] isp2 = true
same_items (item ∷ isp1) [] = false
same_items (item ∷ isp1) (other ∷ isp2) = (item == other) && same_items isp1 isp2

-- The loop of get_state over the states of a key.
unfoldable pub find_state : List ℕ → List Core → Option Core
find_state items [] = none
find_state items (sp ∷ chain) =
    let rest = find_state items chain in
    if (length sp.items == length items) && same_items items sp.items then some sp else rest

-- The new state becomes the last one of its key.
abbrev pub link_state : ℕ → Core × States → ℕ × States
link_state key (p, st) = (
  p.number,
  record st { state_set = set st.state_set key (get_or st.state_set key [] ++ p ∷ []) },
)

-- The assertion 0 <= key && key < nitems.
abbrev pub is_item : Grammar → ℕ → Bool
is_item g key = leb key maxshort && ltb key g.nitems

unfoldable pub get_items : Grammar → ℕ → List ℕ → States → Run (ℕ × States)
get_items g s [] st = fault
get_items g s (key ∷ items) st =
    if is_item g key
    then elim (find_state (key ∷ items) (get_or st.state_set key [])) [
      | some sp ↦ done (sp.number, st)
      | none ↦ new_state s (key ∷ items) st >>= λ made. done (link_state key made)
    ]
    else abort

-- get_state: the number of the state, which is made where it is not there yet.
unfoldable pub get_state : Grammar → Kernels → ℕ → States → Run (ℕ × States)
get_state g ks s st = elim (kernel ks s) [ none ↦ fault | some items ↦ get_items g s items st ]
