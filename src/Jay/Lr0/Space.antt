-- ===== src/Jay/Lr0/Space.antt =====
-- allocate_itemsets gives each symbol a space for all the items before it.
use llc.Common.{ℕ, zero, suc, ◌+◌, ◌≤◌, ◌<◌, ◌≡◌, refl, ap, arith}
use llc.Common.{true, false, List, [], ◌∷◌, length, get_or, set, replicate, if◌then◌else◌}
use native.Mathlib.Decide.{ℕ_discrete}
use llc.Jay.Grammar.{Grammar}
use llc.Jay.Lr0.{base_loop}
use llc.Jay.Lr0.Kernel.{before, kernel_of, item_step, taken, left_out}
use llc.Jay.Closure.Order.{Rising}

unfoldable pub total : List ℕ → ℕ
total [] = 0
total (n ∷ ns) = n + total ns

pub total-set :
    (ns : List ℕ) (s : ℕ) → s < length ns → total (set ns s (get_or ns s 0 + 1)) ≡ total ns + 1
unfolding total
total-set [] s lt = absurd (omega arith)
total-set (n ∷ ns) zero lt = omega arith
total-set (n ∷ ns) (suc s) lt = omega (arith, total-set ns s (omega arith))

pub total-replicate : (n : ℕ) → total (replicate n 0) ≡ 0
unfolding total
total-replicate zero = refl
total-replicate (suc n) = omega (arith, total-replicate n)

-- The number of items before symbol `s`, among `left` of them from item `i` on.
unfoldable pub tally : Grammar → ℕ → ℕ → ℕ → ℕ
tally g s zero i = 0
tally g s (suc left) i =
    let rest = tally g s left (i + 1) in if before g s i then suc rest else rest

pub data TallyStep (g : Grammar) (s left i : ℕ) : Type 0 where
  counted :
      before g s i ≡ true
      → tally g s (suc left) i ≡ suc (tally g s left (i + 1))
      → TallyStep g s left i
  passed :
      before g s i ≡ false → tally g s (suc left) i ≡ tally g s left (i + 1) → TallyStep g s left i

pub tally_step : (g : Grammar) (s left i : ℕ) → TallyStep g s left i
unfolding tally
tally_step g s left i = elim (item_step g s i []) [
  | taken e on made ↦ counted on (rw on refl)
  | left_out ne off made ↦ passed off (rw off refl)
]

-- A kernel of items in order has at most one item for each of those before the symbol.
pub length-kernel_of :
    (g : Grammar) (s left i : ℕ) (itemset : List ℕ)
    → Rising i (i + left) itemset
    → length (kernel_of g s itemset) ≤ tally g s left i
unfolding tally kernel_of
length-kernel_of g s left i [] rising = omega arith
length-kernel_of g s zero i (x ∷ itemset) (lo, hi, rising) = absurd (omega arith)
length-kernel_of g s (suc left) i (x ∷ itemset) (lo, hi, rising) =
    let e : i + suc left ≡ i + 1 + left = omega arith in
    elim (ℕ_discrete x i) [
      | yes same ↦
          let rest = length-kernel_of g s left (i + 1) itemset (rw (same, e) at rising) in
          rw same (ground (arith, rest))
      | no later ↦
          let rest =
            length-kernel_of g s left (i + 1) (x ∷ itemset)
              (omega arith, omega arith, rw e at rising) in
          elim (tally_step g s left i) [
            | counted on made ↦ omega arith
            | passed off made ↦ omega arith
          ]
    ]

base_loop-ge : (c t : ℕ) (ns : List ℕ) → t < length ns → c ≤ get_or (base_loop c ns) t 0
unfolding base_loop
base_loop-ge c t [] lt = absurd (omega arith)
base_loop-ge c zero (n ∷ ns) lt = omega arith
base_loop-ge c (suc t) (n ∷ ns) lt = omega (arith, base_loop-ge (c + n) t ns (omega arith))

pub base_loop-apart :
    (c s t : ℕ) (ns : List ℕ)
    → s < t
    → t < length ns
    → get_or (base_loop c ns) s 0 + get_or ns s 0 ≤ get_or (base_loop c ns) t 0
unfolding base_loop
base_loop-apart c s t [] below lt = absurd (omega arith)
base_loop-apart c s zero (n ∷ ns) below lt = absurd (omega arith)
base_loop-apart c zero (suc t) (n ∷ ns) below lt = base_loop-ge (c + n) t ns (omega arith)
base_loop-apart c (suc s) (suc t) (n ∷ ns) below lt =
    base_loop-apart (c + n) s t ns (omega arith) (omega arith)

pub base_loop-inside :
    (c s : ℕ) (ns : List ℕ)
    → s < length ns
    → get_or (base_loop c ns) s 0 + get_or ns s 0 ≤ c + total ns
unfolding base_loop total
base_loop-inside c s [] lt = absurd (omega arith)
base_loop-inside c zero (n ∷ ns) lt = omega arith
base_loop-inside c (suc s) (n ∷ ns) lt = omega (arith, base_loop-inside (c + n) s ns (omega arith))

pub length-base_loop : (c : ℕ) (ns : List ℕ) → length (base_loop c ns) ≡ length ns
unfolding base_loop
length-base_loop c [] = refl
length-base_loop c (n ∷ ns) = ap suc (length-base_loop (c + n) ns)
