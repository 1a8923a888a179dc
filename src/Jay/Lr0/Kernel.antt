-- ===== src/Jay/Lr0/Kernel.antt =====
-- The kernel of a symbol: the items behind it in an item set. And runs of entries of an array.
use llc.Common.{ℕ, zero, suc, ◌+◌, ◌≤◌, ◌<◌, ◌≡◌, ◌≢◌, ◌⊎◌, inl, inr, refl, ap, arith}
use llc.Common.{
  Bool, true, false, List, [], ◌∷◌, ◌++◌, length, get_or, set, get_or-set_self, get_or-set_ne,
  append_assoc, append_nil, ◌==◌, ==_refl, ==_ne, if◌then◌else◌, Bool-cases,
}
use native.Mathlib.Decide.{ℕ_discrete}
use llc.Jay.Grammar.{Grammar, Entry, symbol, end_of}
use llc.Jay.Lr0.{read_items}

-- The symbol stands behind the dot of the item.
abbrev symbol_is : ℕ → Entry → Bool
symbol_is s (symbol t) = t == s
symbol_is s (end_of r) = false

unfoldable pub before : Grammar → ℕ → ℕ → Bool
before g s i = symbol_is s (g.ritem i)

unfoldable pub kernel_of : Grammar → ℕ → List ℕ → List ℕ
kernel_of g s [] = []
kernel_of g s (i ∷ itemset) =
    let rest = kernel_of g s itemset in if before g s i then (i + 1) ∷ rest else rest

pub data ItemStep (g : Grammar) (s i : ℕ) (itemset : List ℕ) : Type 0 where
  taken :
      g.ritem i ≡ symbol s
      → before g s i ≡ true
      → kernel_of g s (i ∷ itemset) ≡ (i + 1) ∷ kernel_of g s itemset
      → ItemStep g s i itemset
  left_out :
      g.ritem i ≢ symbol s
      → before g s i ≡ false
      → kernel_of g s (i ∷ itemset) ≡ kernel_of g s itemset
      → ItemStep g s i itemset

before-true : (g : Grammar) (s i : ℕ) → g.ritem i ≡ symbol s → before g s i ≡ true
unfolding before
before-true g s i e = rw e (==_refl s)

before-false :
    (g : Grammar) (s i : ℕ) (e : Entry) → g.ritem i ≡ e → e ≢ symbol s → before g s i ≡ false
unfolding before
before-false g s i (symbol t) at ne = rw at (==_ne t s (λ same. ne (ap symbol same)))
before-false g s i (end_of r) at ne = rw at refl

is_symbol : (e : Entry) (s : ℕ) → (e ≡ symbol s) ⊎ (e ≢ symbol s)
is_symbol (symbol t) s = elim (ℕ_discrete t s) [
  | yes same ↦ inl (ap symbol same)
  | no apart ↦ inr (λ e. let same : t ≡ s = cc in apart same)
]
is_symbol (end_of r) s = inr (λ e. cc)

pub item_step : (g : Grammar) (s i : ℕ) (itemset : List ℕ) → ItemStep g s i itemset
unfolding kernel_of
item_step g s i itemset = elim (is_symbol (g.ritem i) s) [
  | inl e ↦ taken e (before-true g s i e) (rw (before-true g s i e) refl)
  | inr ne ↦ let off = before-false g s i (g.ritem i) refl ne in left_out ne off (rw off refl)
]

pub kernel_of-nil : (g : Grammar) (s : ℕ) → kernel_of g s [] ≡ []
unfolding kernel_of
kernel_of-nil g s = refl

-- The kernel of an item set grows item by item.
pub kernel_of-step :
    (g : Grammar) (s i : ℕ) (itemset pre : List ℕ)
    → (pre ++ kernel_of g s (i ∷ [])) ++ kernel_of g s itemset ≡ pre ++ kernel_of g s (i ∷ itemset)
unfolding kernel_of
kernel_of-step g s i itemset pre = elim (Bool-cases (before g s i)) [
  | inl on ↦ rw on (append_assoc pre ((i + 1) ∷ []) (kernel_of g s itemset))
  | inr off ↦ rw (off, append_nil pre) refl
]

-- A write outside a run.
pub read_items-set_ne :
    (xs : List ℕ) (j v base n : ℕ)
    → (j < base) ⊎ (base + n ≤ j)
    → read_items (set xs j v) base n ≡ read_items xs base n
unfolding read_items
read_items-set_ne xs j v base zero out = refl
read_items-set_ne xs j v base (suc n) out =
    let (apart, out') : (j ≢ base) × ((j < base + 1) ⊎ (base + 1 + n ≤ j)) = elim out [
      | inl lo ↦ (omega arith, inl (omega arith))
      | inr hi ↦ (omega arith, inr (omega arith))
    ] in
    rw (get_or-set_ne xs j base v 0 apart, read_items-set_ne xs j v (base + 1) n out') refl

read_items-snoc :
    (xs : List ℕ) (base n : ℕ)
    → read_items xs base (suc n) ≡ read_items xs base n ++ get_or xs (base + n) 0 ∷ []
unfolding read_items
read_items-snoc xs base zero = let e : base + 0 ≡ base = omega arith in rw e refl
read_items-snoc xs base (suc n) =
    let e : base + suc n ≡ base + 1 + n = omega arith in
    rw (read_items-snoc xs (base + 1) n, e) refl

-- A write right behind a run.
pub read_items-set_end :
    (xs : List ℕ) (v base n : ℕ)
    → base + n < length xs
    → read_items (set xs (base + n) v) base (suc n) ≡ read_items xs base n ++ v ∷ []
read_items-set_end xs v base n lt =
    rw
      (
        read_items-snoc (set xs (base + n) v) base n,
        get_or-set_self xs (base + n) v 0 lt,
        read_items-set_ne xs (base + n) v base n (inr (omega arith)),
      )
      refl

pub length-read_items : (xs : List ℕ) (base n : ℕ) → length (read_items xs base n) ≡ n
unfolding read_items
length-read_items xs base zero = refl
length-read_items xs base (suc n) = ap suc (length-read_items xs (base + 1) n)
