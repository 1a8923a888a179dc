-- ===== src/Jay/Lr0/Itemsets.antt =====
-- new_itemsets leaves the kernels of the symbols behind the dots of an item set.
use llc.Common.{
  ℕ, zero, suc, ◌+◌, ◌≤◌, ◌<◌, ◌≡◌, ◌≢◌, ◌↔◌, ◌⊎◌, inl, inr, refl, sym, ap, ◌∙◌, arith,
}
use llc.Common.{
  some, List, [], ◌∷◌, length, length-set, get_or, replicate, length-replicate, get_or-replicate,
  get_or-set_self, get_or-set_ne, Among,
}
use llc.Jay.Grammar.Entries.{symbol-injective, symbol-ne-end_of}
use llc.Jay.Grammar.{Grammar, Entry, symbol, end_of, maxshort}
use llc.Jay.Lr0.{
  Kernels, count_entry, count_loop, counts, base_loop, allocate_itemsets, new_itemsets, kernel,
}
use llc.Jay.Closure.Order.{Rising}
use llc.Jay.Lr0.Kernel.{kernel_of, item_step, taken, left_out}
use llc.Jay.Lr0.Fill.{Spaces, Filled, Distinct}
use llc.Jay.Lr0.Loop.{new_itemsets-Filled, kernel-Filled}
use llc.Jay.Lr0.Space.{
  total, total-set, total-replicate, tally, counted, passed, tally_step, length-kernel_of,
  base_loop-apart, base_loop-inside,
}

abbrev bases : Grammar → List ℕ
bases g = base_loop 0 (counts g).1

-- The symbols in ritem are below nsyms.
abbrev pub InRange : Grammar → Type 0
InRange g = (i s : ℕ) → g.ritem i ≡ symbol s → s < g.nsyms

-- What count_loop has counted.
record Counted (g : Grammar) (from to : ℕ × List ℕ) (left i : ℕ) : Type 0 where
  pub size : length to.1 ≡ length from.1
  pub sum : to.0 + total from.1 ≡ from.0 + total to.1
  pub each : (s : ℕ) → s < length from.1 → get_or to.1 s 0 ≡ get_or from.1 s 0 + tally g s left i

pub entry_case : (e : Entry) → ((s : ℕ) × (e ≡ symbol s)) ⊎ ((r : ℕ) × (e ≡ end_of r))
entry_case (symbol s) = inl (s, refl)
entry_case (end_of r) = inr (r, refl)

module _ (g : Grammar) (in_range : InRange g) where
  count_entry-Counted :
      (i count : ℕ) (ns : List ℕ)
      → length ns ≡ g.nsyms
      → Counted g (count, ns) (count_entry (count, ns) (g.ritem i)) 1 i
  unfolding tally
  count_entry-Counted i count ns size = elim (entry_case (g.ritem i)) [
    | inl (s, at) ↦
        let lt : s < length ns = rw size (in_range i s at) in
        rw at (record {
          size = length-set ns s _;
          sum = omega (arith, total-set ns s lt);
          each = λ x x_lt. elim (item_step g x i []) [
            | taken e on made ↦
                let same : s ≡ x = symbol-injective (sym at ∙ e) in
                rw (on, same, get_or-set_self ns x (get_or ns x 0 + 1) 0 x_lt) refl
            | left_out ne off made ↦
                rw (off, get_or-set_ne ns s x _ 0 (λ same. ne (at ∙ ap symbol same))) (omega arith)
          ];
        })
    | inr (r, at) ↦ rw at (record {
      size = refl;
      sum = refl;
      each = λ x x_lt. elim (item_step g x i []) [
        | taken e on made ↦ absurd (symbol-ne-end_of (sym e ∙ at))
        | left_out ne off made ↦ rw off (omega arith)
      ];
    })
  ]

  count_loop-Counted :
      (left i count : ℕ) (ns : List ℕ)
      → length ns ≡ g.nsyms
      → Counted g (count, ns) (count_loop g left i (count, ns)) left i
  unfolding count_loop tally
  count_loop-Counted zero i count ns size = record {
    size = refl;
    sum = omega arith;
    each = λ s lt. omega arith;
  }
  count_loop-Counted (suc left) i count ns size =
      let from : ℕ × List ℕ = (count, ns) in
      let mid : ℕ × List ℕ = count_entry from (g.ritem i) in
      let first : Counted g from mid 1 i = count_entry-Counted i count ns size in
      let rest : Counted g mid (count_loop g left (i + 1) mid) left (i + 1) =
        count_loop-Counted left (i + 1) mid.0 mid.1 (first.size ∙ size) in
      record {
        size = rest.size ∙ first.size;
        sum = omega (arith, first.sum, rest.sum);
        each = λ s lt.
            let one = first.each s lt in
            let others = rest.each s (rw first.size lt) in
            elim (tally_step g s left i) [
              | counted on made ↦ let one' = rw on at one in rw on (omega arith)
              | passed off made ↦ let one' = rw off at one in rw off (omega arith)
            ];
      }

  counts-Counted : Counted g (0, replicate g.nsyms 0) (counts g) g.nitems 0
  unfolding counts
  counts-Counted =
      count_loop-Counted g.nitems 0 0 (replicate g.nsyms 0) (length-replicate g.nsyms 0)

  counts-tally : (s : ℕ) → s < g.nsyms → get_or (counts g).1 s 0 ≡ tally g s g.nitems 0
  counts-tally s lt =
      let each = counts-Counted.each s (rw (length-replicate {A = ℕ} g.nsyms 0) lt) in
      let start = get_or-replicate {A = ℕ} g.nsyms s 0 in omega arith

  allocated-Spaces :
      Spaces g.nsyms (counts g).0 (λ s. get_or (bases g) s 0) (λ s. tally g s g.nitems 0)
  allocated-Spaces =
      let size = counts-Counted.size in
      let all = length-replicate {A = ℕ} g.nsyms 0 in
      let sum = counts-Counted.sum in
      let nothing = total-replicate g.nsyms in
      record {
        apart = λ s t below lt.
            let room = counts-tally s (omega arith) in
            let a = base_loop-apart 0 s t (counts g).1 below (omega arith) in omega arith;
        inside = λ s lt.
            let room = counts-tally s lt in
            let a = base_loop-inside 0 s (counts g).1 (omega arith) in omega arith;
      }

-- The tables have the spaces of allocate_itemsets.
pub record Allocated (g : Grammar) (ks : Kernels) : Type 0 where
  pub spaces : ks.kernel_base ≡ base_loop 0 (counts g).1
  pub size : length ks.kernel_items ≡ (counts g).0

pub allocate_itemsets-Allocated : (g : Grammar) → Allocated g (allocate_itemsets g)
unfolding allocate_itemsets
allocate_itemsets-Allocated g = record { spaces = refl; size = length-replicate (counts g).0 0 }

-- What new_itemsets leaves for an item set.
pub record Kerneled (g : Grammar) (ks : Kernels) (itemset : List ℕ) : Type 0 where
  pub allocated : Allocated g ks
  pub distinct : Distinct ks.shift_symbol
  pub shifted :
      (s : ℕ) → Among s ks.shift_symbol ↔ ((0 < s) × (s < g.nsyms) × (kernel_of g s itemset ≢ []))
  pub kernels : (s : ℕ) → Among s ks.shift_symbol → kernel ks s ≡ some (kernel_of g s itemset)

Rising-lt : (lo hi x : ℕ) (xs : List ℕ) → Rising lo hi xs → Among x xs → x < hi
Rising-lt lo hi x [] rising m = elim m [ ]
Rising-lt lo hi x (y ∷ xs) (low, high, rising) (inl e) = omega (arith, e)
Rising-lt lo hi x (y ∷ xs) (low, high, rising) (inr m) = Rising-lt (y + 1) hi x xs rising m

-- From tables with the spaces of allocate_itemsets, no more than MAXSHORT items and a set of items in
-- order, new_itemsets lists
-- in shift_symbol, once each, exactly the positive symbols behind the dot of an item, and between
-- kernel_base and kernel_end of each of them it leaves exactly the items of the set with the dot
-- moved over the symbol, in their order; no kernel runs into another one.
pub new_itemsets-Kerneled :
    (g : Grammar) (ks : Kernels) (itemset : List ℕ)
    → InRange g
    → g.nitems ≤ maxshort
    → Allocated g ks
    → Rising 0 g.nitems itemset
    → Kerneled g (new_itemsets g ks itemset) itemset
new_itemsets-Kerneled g ks itemset in_range short ok rising =
    let cap : ℕ → ℕ = λ s. tally g s g.nitems 0 in
    let total_items : 0 + g.nitems ≡ g.nitems = omega arith in
    let full : Filled g (counts g).0 (bases g) cap (new_itemsets g ks itemset)
        (λ x. kernel_of g x itemset) =
      new_itemsets-Filled g (counts g).0 (bases g) cap (allocated-Spaces g in_range) itemset ks
        in_range (λ i m. let lt = Rising-lt 0 g.nitems i itemset rising m in omega arith) ok.spaces
        ok.size (λ s lt. length-kernel_of g s g.nitems 0 itemset (rw total_items rising)) in
    record {
      allocated = record { spaces = full.same_base; size = full.items };
      distinct = full.distinct;
      shifted = full.shifted;
      kernels = λ s m.
          let (pos, lt, ne) = (full.shifted s).0 m in
          kernel-Filled g (counts g).0 (bases g) cap _ (λ x. kernel_of g x itemset) s full pos lt
            ne;
    }
