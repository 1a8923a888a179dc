-- ===== src/Jay/Lr0/Fill.antt =====
-- new_itemsets fills the space of each symbol with its kernel.
use llc.Common.{
  ℕ, zero, suc, ◌+◌, ◌≤◌, ◌<◌, ◌≡◌, ◌≢◌, ◌↔◌, ◌⊎◌, inl, inr, refl, sym, ap, ◌∙◌, arith,
}
use llc.Common.{
  Option, none, some, List, [], ◌∷◌, ◌++◌, length, length-append, length-set, get_or, set,
  get_or-set_self, get_or-set_ne, append_nil, Among, Among-append,
}
use native.Mathlib.Decide.{dec_lt}
use llc.Jay.Grammar.Entries.{symbol-injective}
use llc.Jay.Grammar.{Grammar, symbol, maxshort, to_short}
use llc.Jay.Lr0.{Kernels, put_item, read_items}
use llc.Jay.Lr0.Kernel.{
  kernel_of, kernel_of-nil, item_step, taken, left_out, read_items-set_ne, read_items-set_end,
}

-- The pointer behind the first `n` items of a space, where there are any.
abbrev pub end_at : ℕ → ℕ → Option ℕ
end_at base zero = none
end_at base (suc n) = some (base + suc n)

abbrev pub Distinct : List ℕ → Type 0
Distinct [] = Unit
Distinct (x ∷ xs) = (Among x xs → ⊥) × Distinct xs

pub Distinct-snoc : (xs : List ℕ) (x : ℕ) → Distinct xs → (Among x xs → ⊥) → Distinct (xs ++ x ∷ [])
Distinct-snoc [] x d new = (λ m. elim m [ ], tt)
Distinct-snoc (y ∷ xs) x (out, d) new = (
  λ m. elim (Among-append y xs (x ∷ []) m) [
    | inl old ↦ out old
    | inr (inl same) ↦ new (inl (sym same))
    | inr (inr m') ↦ elim m' [ ]
  ],
  Distinct-snoc xs x d (λ m. new (inr m)),
)

snoc-ne-nil : (xs : List ℕ) (x : ℕ) → xs ++ x ∷ [] ≢ []
snoc-ne-nil [] x = λ e. cc
snoc-ne-nil (y ∷ xs) x = λ e. cc

-- What item `i` before symbol `s` adds to the kernel of `x`.
data Grow (g : Grammar) (pre : List ℕ) (i s x : ℕ) : Type 0 where
  self : x ≡ s → pre ++ kernel_of g x (i ∷ []) ≡ pre ++ (i + 1) ∷ [] → Grow g pre i s x
  other : x ≢ s → pre ++ kernel_of g x (i ∷ []) ≡ pre → Grow g pre i s x

grow : (g : Grammar) (pre : List ℕ) (i s x : ℕ) → g.ritem i ≡ symbol s → Grow g pre i s x
grow g pre i s x at = elim (item_step g x i []) [
  | taken e on made ↦
      let same : x ≡ s = symbol-injective (sym e ∙ at) in
      self same (rw (made, kernel_of-nil g x) refl)
  | left_out ne off made ↦
      other (λ same. ne (rw same at)) (rw (made, kernel_of-nil g x) (append_nil pre))
]

length-snoc : (xs : List ℕ) (v : ℕ) → length (xs ++ v ∷ []) ≡ suc (length xs)
length-snoc xs v = omega (arith, length-append xs (v ∷ []))

-- Spaces for `cap` items of each symbol, behind one another, in an array of `size` items.
pub record Spaces (nsyms size : ℕ) (base cap : ℕ → ℕ) : Type 0 where
  pub apart : (s t : ℕ) → s < t → t < nsyms → base s + cap s ≤ base t
  pub inside : (s : ℕ) → s < nsyms → base s + cap s ≤ size

module _ (g : Grammar) (size : ℕ) (bases : List ℕ) (cap : ℕ → ℕ) where
  abbrev base : ℕ → ℕ
  base s = get_or bases s 0

  -- The space of each symbol `s` holds `filled s`.
  pub record Filled (ks : Kernels) (filled : ℕ → List ℕ) : Type 0 where
    pub same_base : ks.kernel_base ≡ bases
    pub ends : length ks.kernel_end ≡ g.nsyms
    pub items : length ks.kernel_items ≡ size
    pub end_of_space :
        (s : ℕ)
        → 0 < s
        → s < g.nsyms
        → get_or ks.kernel_end s none ≡ end_at (base s) (length (filled s))
    pub holds :
        (s : ℕ)
        → 0 < s
        → s < g.nsyms
        → read_items ks.kernel_items (base s) (length (filled s)) ≡ filled s
    pub distinct : Distinct ks.shift_symbol
    pub shifted : (s : ℕ) → Among s ks.shift_symbol ↔ ((0 < s) × (s < g.nsyms) × (filled s ≢ []))

  -- The place behind the items of `s` is not in the space of another symbol.
  elsewhere :
      (filled : ℕ → List ℕ) (s x : ℕ)
      → Spaces g.nsyms size base cap
      → ((y : ℕ) → y < g.nsyms → length (filled y) ≤ cap y)
      → s < g.nsyms
      → x < g.nsyms
      → length (filled s) < cap s
      → x ≢ s
      → (base s + length (filled s) < base x)
        ⊎ (base x + length (filled x) ≤ base s + length (filled s))
  elsewhere filled s x spaces fits lt lt' room ne = elim (dec_lt s x) [
    | yes below ↦ let a = spaces.apart s x below lt' in inl (omega arith)
    | no above ↦
        let a = spaces.apart x s (omega arith) lt in let b = fits x lt' in inr (omega arith)
  ]

  put_item-fits :
      (i s ksp : ℕ) (ks : Kernels)
      → i < maxshort
      → put_item i s ksp ks ≡ record ks {
        kernel_items = set ks.kernel_items ksp (i + 1);
        kernel_end = set ks.kernel_end s (some (ksp + 1));
      }
  unfolding put_item
  put_item-fits i s ksp ks lt = let fits : to_short (i + 1) ≡ i + 1 = omega arith in rw fits refl

  -- Putting item `i` behind the items of its symbol.
  pub put_item-Filled :
      (ks : Kernels) (filled : ℕ → List ℕ) (i s : ℕ) (symbols : List ℕ)
      → Spaces g.nsyms size base cap
      → Filled ks filled
      → ((x : ℕ) → x < g.nsyms → length (filled x) ≤ cap x)
      → 0 < s
      → s < g.nsyms
      → length (filled s) < cap s
      → g.ritem i ≡ symbol s
      → i < maxshort
      → Distinct symbols
      → ((x : ℕ) → Among x symbols ↔ ((x ≡ s) ⊎ ((0 < x) × (x < g.nsyms) × (filled x ≢ []))))
      → Filled
          (put_item i s (base s + length (filled s)) (record ks { shift_symbol = symbols }))
          (λ x. filled x ++ kernel_of g x (i ∷ []))
  put_item-Filled ks filled i s symbols spaces ok fits pos lt room at short distinct' members =
      rw
        (put_item-fits i s (base s + length (filled s)) (record ks { shift_symbol = symbols })
          short)
        (record {
          same_base = ok.same_base;
          ends = length-set ks.kernel_end s _ ∙ ok.ends;
          items = length-set ks.kernel_items _ (i + 1) ∙ ok.items;
          end_of_space = λ x pos' lt'. elim (grow g (filled x) i s x at) [
            | self same made ↦
                rw (made, same, length-snoc (filled s) (i + 1))
                  (get_or-set_self ks.kernel_end s _ none (rw (ok.ends) lt)
                    ∙ ap (λ n. some n) (omega arith))
            | other ne made ↦ rw made (
                get_or-set_ne ks.kernel_end s x _ none (λ e. ne (sym e))
                ∙ ok.end_of_space x pos' lt')
          ];
          holds = λ x pos' lt'. elim (grow g (filled x) i s x at) [
            | self same made ↦
                rw (made, same, length-snoc (filled s) (i + 1))
                  (read_items-set_end ks.kernel_items (i + 1) (base s) (length (filled s))
                      (let a = spaces.inside s lt in let b = ok.items in omega arith)
                    ∙ ap (λ xs. xs ++ (i + 1) ∷ []) (ok.holds s pos lt))
            | other ne made ↦ rw made (
                read_items-set_ne ks.kernel_items (base s + length (filled s)) (i + 1) (base x)
                  (length (filled x)) (elsewhere filled s x spaces fits lt lt' room ne)
                ∙ ok.holds x pos' lt')
          ];
          distinct = distinct';
          shifted = λ x. elim (grow g (filled x) i s x at) [
            | self same made ↦ rw made (
              λ m. (rw same pos, rw same lt, snoc-ne-nil (filled x) (i + 1)),
              λ p. (members x).1 (inl same),
            )
            | other ne made ↦ rw made (
              λ m. elim ((members x).0 m) [ inl same ↦ absurd (ne same) | inr p ↦ p ],
              λ p. (members x).1 (inr p),
            )
          ];
        })
