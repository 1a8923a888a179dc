-- ===== src/Jay/Lr0/Loop.antt =====
-- The loop of new_itemsets over an item set.
use llc.Common.{
  ℕ, zero, suc, ◌+◌, ◌-◌, ◌≤◌, ◌<◌, ◌≡◌, ◌≢◌, ◌⊎◌, inl, inr, refl, sym, ap, ◌∙◌, arith,
}
use llc.Common.{
  none, some, List, [], ◌∷◌, ◌++◌, length, length-append, get_or, length-replicate,
  get_or-replicate, append_nil, lt→ltb, Among, Among-append, Among-append_left, Among-append_right,
}
use llc.Jay.Grammar.Entries.{symbol-injective}
use llc.Jay.Grammar.{Grammar, Entry, symbol, end_of, maxshort}
use llc.Jay.Lr0.{Kernels, put_item, add_item, item_loop, new_itemsets, read_items, kernel}
use llc.Jay.Lr0.Kernel.{kernel_of, kernel_of-nil, kernel_of-step, item_step, taken, left_out}
use llc.Jay.Lr0.Fill.{end_at, Distinct-snoc, Spaces, Filled, put_item-Filled}

list_cases : (xs : List ℕ) → (xs ≡ []) ⊎ ((n : ℕ) × (length xs ≡ suc n) × (xs ≢ []))
list_cases [] = inl refl
list_cases (x ∷ xs) = inr (length xs, refl, λ e. cc)

add_item-new :
    (i s : ℕ) (ks : Kernels)
    → 0 < s
    → get_or ks.kernel_end s none ≡ none
    → add_item i s ks
      ≡ put_item i s
          (get_or ks.kernel_base s 0)
          (record ks { shift_symbol = ks.shift_symbol ++ s ∷ [] })
unfolding add_item
add_item-new i s ks pos e = rw (lt→ltb 0 s pos, e) refl

add_item-old :
    (i s ksp : ℕ) (ks : Kernels)
    → 0 < s
    → get_or ks.kernel_end s none ≡ some ksp
    → add_item i s ks ≡ put_item i s ksp (record ks { shift_symbol = ks.shift_symbol })
unfolding add_item
add_item-old i s ksp ks pos e = rw (lt→ltb 0 s pos, e) refl

add_item-zero : (i : ℕ) (ks : Kernels) → add_item i 0 ks ≡ ks
unfolding add_item
add_item-zero i ks = refl

read_items-zero : (xs : List ℕ) (b : ℕ) → read_items xs b 0 ≡ []
unfolding read_items
read_items-zero xs b = refl

data EntryCase (e : Entry) (i : ℕ) (ks : Kernels) : Type 0 where
  shifts :
      (s : ℕ)
      → e ≡ symbol s
      → 0 < s
      → elim e [ symbol t ↦ add_item i t ks | end_of r ↦ ks ] ≡ add_item i s ks
      → EntryCase e i ks
  stays :
      ((s : ℕ) → 0 < s → e ≢ symbol s)
      → elim e [ symbol t ↦ add_item i t ks | end_of r ↦ ks ] ≡ ks
      → EntryCase e i ks

entry_case : (e : Entry) (i : ℕ) (ks : Kernels) → EntryCase e i ks
entry_case (symbol zero) i ks =
    stays (λ s pos e. let same : 0 ≡ s = symbol-injective e in omega arith) (add_item-zero i ks)
entry_case (symbol (suc s)) i ks = shifts (suc s) refl (omega arith) refl
entry_case (end_of r) i ks = stays (λ s pos e. cc) refl

module _ (g : Grammar) (size : ℕ) (bases : List ℕ) (cap : ℕ → ℕ) where
  Filled-cong :
      (ks : Kernels) (filled filled' : ℕ → List ℕ)
      → ((x : ℕ) → 0 < x → filled x ≡ filled' x)
      → Filled g size bases cap ks filled
      → Filled g size bases cap ks filled'
  Filled-cong ks filled filled' same ok = record {
    same_base = ok.same_base;
    ends = ok.ends;
    items = ok.items;
    end_of_space = λ s pos lt. rw (sym (same s pos)) (ok.end_of_space s pos lt);
    holds = λ s pos lt. rw (sym (same s pos)) (ok.holds s pos lt);
    distinct = ok.distinct;
    shifted = λ s. (
      λ m. let (pos, lt, ne) = (ok.shifted s).0 m in (pos, lt, λ e. ne (same s pos ∙ e)),
      λ (pos, lt, ne). (ok.shifted s).1 (pos, lt, λ e. ne (sym (same s pos) ∙ e)),
    );
  }

  kernel_of-skip :
      (x i : ℕ) (itemset : List ℕ)
      → g.ritem i ≢ symbol x
      → kernel_of g x (i ∷ itemset) ≡ kernel_of g x itemset
  kernel_of-skip x i itemset ne = elim (item_step g x i itemset) [
    | taken e on made ↦ absurd (ne e)
    | left_out ne' off made ↦ made
  ]

  -- Space for the rest of an item set is space for its first item and for the others.
  fits_later :
      (filled : ℕ → List ℕ) (x i : ℕ) (itemset : List ℕ)
      → length (filled x) + length (kernel_of g x (i ∷ itemset)) ≤ cap x
      → (length (filled x) ≤ cap x)
        × (length (filled x ++ kernel_of g x (i ∷ [])) + length (kernel_of g x itemset) ≤ cap x)
        × (length (filled x) + length (kernel_of g x itemset) ≤ cap x)
  fits_later filled x i itemset le =
      let a = ap length (kernel_of-step g x i itemset (filled x)) in
      let b = length-append (filled x ++ kernel_of g x (i ∷ [])) (kernel_of g x itemset) in
      let c = length-append (filled x) (kernel_of g x (i ∷ itemset)) in
      let d = length-append (filled x) (kernel_of g x (i ∷ [])) in
      (omega arith, omega arith, omega arith)

  room_for :
      (filled : ℕ → List ℕ) (s i : ℕ) (itemset : List ℕ)
      → g.ritem i ≡ symbol s
      → length (filled s) + length (kernel_of g s (i ∷ itemset)) ≤ cap s
      → length (filled s) < cap s
  room_for filled s i itemset at le = elim (item_step g s i itemset) [
    | taken e on made ↦ let a = ap length made in omega arith
    | left_out ne off made ↦ absurd (ne at)
  ]

  module _ (spaces : Spaces g.nsyms size (λ s. get_or bases s 0) cap) where
    add_item-Filled :
        (ks : Kernels) (filled : ℕ → List ℕ) (i s : ℕ)
        → Filled g size bases cap ks filled
        → ((x : ℕ) → x < g.nsyms → length (filled x) ≤ cap x)
        → 0 < s
        → s < g.nsyms
        → length (filled s) < cap s
        → g.ritem i ≡ symbol s
        → i < maxshort
        → Filled g size bases cap (add_item i s ks) (λ x. filled x ++ kernel_of g x (i ∷ []))
    add_item-Filled ks filled i s ok fits pos lt room at short = elim (list_cases (filled s)) [
      | inl none_yet ↦
          let null : get_or ks.kernel_end s none ≡ none =
            ok.end_of_space s pos lt ∙ ap (λ xs. end_at (get_or bases s 0) (length xs)) none_yet in
          let fresh : Among s ks.shift_symbol → ⊥ =
            λ m. let (p, l, ne) = (ok.shifted s).0 m in ne none_yet in
          let place : get_or ks.kernel_base s 0 ≡ get_or bases s 0 + length (filled s) =
            ap (λ b. get_or b s 0) ok.same_base ∙ rw none_yet (omega arith) in
          rw (add_item-new i s ks pos null, place)
            (put_item-Filled g size bases cap ks filled i s (ks.shift_symbol ++ s ∷ []) spaces ok
              fits pos lt room at short (Distinct-snoc ks.shift_symbol s ok.distinct fresh)
              (λ x. (
                λ m. elim (Among-append x ks.shift_symbol (s ∷ []) m) [
                  | inl old ↦ inr ((ok.shifted x).0 old)
                  | inr (inl same) ↦ inl (sym same)
                  | inr (inr m') ↦ elim m' [ ]
                ],
                λ m. elim m [
                  | inl same ↦ Among-append_right x ks.shift_symbol (s ∷ []) (inl (sym same))
                  | inr p ↦ Among-append_left x ks.shift_symbol (s ∷ []) ((ok.shifted x).1 p)
                ],
              )))
      | inr (n, len, ne) ↦
          let pointer : get_or ks.kernel_end s none ≡ some (get_or bases s 0 + length (filled s)) =
            ok.end_of_space s pos lt ∙ rw len refl in
          rw (add_item-old i s (get_or bases s 0 + length (filled s)) ks pos pointer) (
            put_item-Filled g size bases cap ks filled i s ks.shift_symbol spaces ok fits pos lt
              room at short ok.distinct
              (λ x. (
                λ m. inr ((ok.shifted x).0 m),
                λ m. elim m [
                  | inl same ↦ (ok.shifted x).1 (rw same pos, rw same lt, rw same ne)
                  | inr p ↦ (ok.shifted x).1 p
                ],
              )))
    ]

    pub item_loop-Filled :
        (itemset : List ℕ) (ks : Kernels) (filled : ℕ → List ℕ)
        → ((i s : ℕ) → g.ritem i ≡ symbol s → s < g.nsyms)
        → ((i : ℕ) → Among i itemset → i < maxshort)
        → Filled g size bases cap ks filled
        → ((x : ℕ) → x < g.nsyms → length (filled x) + length (kernel_of g x itemset) ≤ cap x)
        → Filled g size bases cap (item_loop g ks itemset) (λ x. filled x ++ kernel_of g x itemset)
    unfolding item_loop
    item_loop-Filled [] ks filled in_range short ok fits =
        Filled-cong ks filled (λ x. filled x ++ kernel_of g x [])
          (λ x pos. rw (kernel_of-nil g x) (sym (append_nil (filled x)))) ok
    item_loop-Filled (i ∷ itemset) ks filled in_range short ok fits =
        elim (entry_case (g.ritem i) i ks) [
          | shifts s at pos made ↦
              let lt = in_range i s at in
              let later =
                λ (x : ℕ). λ (x_lt : x < g.nsyms). fits_later filled x i itemset (fits x x_lt) in
              rw made (
                Filled-cong (item_loop g (add_item i s ks) itemset)
                  (λ x. (filled x ++ kernel_of g x (i ∷ [])) ++ kernel_of g x itemset)
                  (λ x. filled x ++ kernel_of g x (i ∷ itemset))
                  (λ x pos'. kernel_of-step g x i itemset (filled x))
                  (item_loop-Filled itemset (add_item i s ks)
                    (λ x. filled x ++ kernel_of g x (i ∷ [])) in_range (λ k m. short k (inr m))
                    (add_item-Filled ks filled i s ok (λ x x_lt. (later x x_lt).0) pos lt
                      (room_for filled s i itemset at (fits s lt)) at (short i (inl refl)))
                    (λ x x_lt. (later x x_lt).1)))
          | stays not_symbol made ↦ rw made (
              Filled-cong (item_loop g ks itemset) (λ x. filled x ++ kernel_of g x itemset)
                (λ x. filled x ++ kernel_of g x (i ∷ itemset))
                (λ x pos.
                  ap (λ (xs : List ℕ). filled x ++ xs)
                    (sym (kernel_of-skip x i itemset (not_symbol x pos))))
                (item_loop-Filled itemset ks filled in_range (λ k m. short k (inr m)) ok
                  (λ x x_lt. (fits_later filled x i itemset (fits x x_lt)).2)))
        ]

    -- The spaces are empty at the start of new_itemsets, and hold the kernels at its end.
    pub new_itemsets-Filled :
        (itemset : List ℕ) (ks : Kernels)
        → ((i s : ℕ) → g.ritem i ≡ symbol s → s < g.nsyms)
        → ((i : ℕ) → Among i itemset → i < maxshort)
        → ks.kernel_base ≡ bases
        → length ks.kernel_items ≡ size
        → ((x : ℕ) → x < g.nsyms → length (kernel_of g x itemset) ≤ cap x)
        → Filled g size bases cap (new_itemsets g ks itemset) (λ x. kernel_of g x itemset)
    unfolding new_itemsets
    new_itemsets-Filled itemset ks in_range short same_base items fits =
        item_loop-Filled itemset _ (λ x. []) in_range short
          (record {
            same_base = same_base;
            ends = length-replicate g.nsyms none;
            items = items;
            end_of_space = λ s pos lt. get_or-replicate g.nsyms s none;
            holds = λ s pos lt. read_items-zero ks.kernel_items (get_or bases s 0);
            distinct = tt;
            shifted = λ s. (λ m. elim m [ ], λ (pos, lt, ne). absurd (ne refl));
          })
          (λ x lt. let a = fits x lt in omega arith)

  -- A space that is not empty is what get_state reads.
  pub kernel-Filled :
      (ks : Kernels) (filled : ℕ → List ℕ) (s : ℕ)
      → Filled g size bases cap ks filled
      → 0 < s
      → s < g.nsyms
      → filled s ≢ []
      → kernel ks s ≡ some (filled s)
  kernel-Filled ks filled s ok pos lt ne = elim (list_cases (filled s)) [
    | inl e ↦ absurd (ne e)
    | inr (n, len, ne') ↦
        let place : get_or ks.kernel_base s 0 ≡ get_or bases s 0 =
          ap (λ b. get_or b s 0) ok.same_base in
        let pointer : get_or ks.kernel_end s none ≡ some (get_or bases s 0 + suc n) =
          ok.end_of_space s pos lt ∙ rw len refl in
        let size_of : get_or bases s 0 + suc n - get_or bases s 0 ≡ length (filled s) =
          omega arith in
        rw (pointer, place, size_of) (ap (λ xs. some xs) (ok.holds s pos lt))
  ]
