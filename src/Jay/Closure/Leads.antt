-- ===== src/Jay/Closure/Leads.antt =====
-- EFF: which variables stand first in what a variable derives.
use llc.Common.{
  ℕ, zero, suc, ◌+◌, ◌-◌, ◌≤◌, ◌<◌, ◌≡◌, ◌⊎◌, ◌↔◌, inl, inr, refl, sym, ap, subst, ◌∙◌, arith,
}
use llc.Common.{true, false, List, [], ◌∷◌, length, Among}
use llc.Jay.Bits.{bit, word_size, bit-zeros, zeros, length-zeros}
use llc.Jay.Grammar.{Grammar, Entry, symbol, end_of, nvars, is_var, derives}
use llc.Jay.Grammar.Derives.{derives-Among}
use llc.Jay.Warshall.{Matrix, row}
use llc.Jay.Warshall.Round.{related, related-lt, AllSized}
use llc.Jay.Warshall.Chain.{Chain, Chain-lt, last, step}
use llc.Jay.Warshall.Reflexive.{reflexive_transitive_closure-Chain}
use llc.Jay.Closure.{var_number, eff_loop, eff_rows, set_eff}
use llc.Jay.Closure.First.{
  IsGrammar, Begins, by_rule, BeginsIn, AllPositive, eff_loop_sound, eff_loop-full, length-eff_loop,
}

-- By rules that begin with a variable one gets from the one to the other.
pub data Leads (g : Grammar) : ℕ → ℕ → Type 0 where
  same : {i : ℕ} → Leads g i i
  begin : {i j k : ℕ} → Begins g i j → Leads g j k → Leads g i k

all_positive : (rules : List ℕ) → ((r : ℕ) → Among r rules → 0 < r) → AllPositive rules
all_positive [] h = tt
all_positive (r ∷ rules) h = (h r (inl refl), all_positive rules (λ r' m. h r' (inr m)))

module _ (g : Grammar) where
  abbrev width : ℕ
  width = word_size (nvars g)

  length-eff_rows : (left i : ℕ) → length (eff_rows g left i) ≡ left
  unfolding eff_rows
  length-eff_rows zero i = refl
  length-eff_rows (suc left) i = ap suc (length-eff_rows left (i + 1))

  eff_rows-AllSized : (left i : ℕ) → AllSized width (eff_rows g left i)
  unfolding eff_rows
  eff_rows-AllSized zero i = tt
  eff_rows-AllSized (suc left) i = (
    length-eff_loop g (zeros width) (derives g i) ∙ length-zeros width,
    eff_rows-AllSized left (i + 1),
  )

  row-eff_rows :
      (left i j : ℕ)
      → j < left
      → row (eff_rows g left i) j ≡ eff_loop g (zeros width) (derives g (i + j))
  unfolding eff_rows
  row-eff_rows zero i j h = absurd (omega arith)
  row-eff_rows (suc left) i zero h =
      let e : i ≡ i + 0 = omega arith in ap (λ n. eff_loop g (zeros width) (derives g n)) e
  row-eff_rows (suc left) i (suc j) h =
      let e : i + 1 + j ≡ i + suc j = omega arith in
      row-eff_rows left (i + 1) j (omega arith) ∙ ap (λ n. eff_loop g (zeros width) (derives g n)) e

module _ (g : Grammar) (ok : IsGrammar g) where
  open ok use {vars, no_rule_zero, in_range}

  derives-AllPositive : (i : ℕ) → g.start_symbol ≤ i → AllPositive (derives g i)
  derives-AllPositive i h =
      all_positive (derives g i) (λ r m. let (_, e) = (derives-Among g i r).0 m in positive r e)
    where
      positive : (r : ℕ) → g.rlhs r ≡ i → 0 < r
      positive zero e = absurd (omega arith)
      positive (suc r) e = omega arith

  -- An entry that is a variable, by its number.
  var_at :
      (e : Entry) (k : ℕ)
      → is_var g e ≡ true
      → var_number g e ≡ k
      → (e ≡ symbol (g.start_symbol + k))
  var_at (symbol s) k v n = let h : s ≡ g.start_symbol + k = ground (arith, v, n) in ap symbol h
  var_at (end_of r) k v n = absurd cc

  begins : (i k : ℕ) → BeginsIn g (derives g i) k → Begins g i (g.start_symbol + k)
  begins i k (rule, m, v, n) =
      let (lt, e) = (derives-Among g i rule).0 m in by_rule rule lt e (var_at _ k v n) (omega arith)

  begins_in : (i k : ℕ) → Begins g i (g.start_symbol + k) → BeginsIn g (derives g i) k
  begins_in i k (by_rule rule lt e first h) =
      (rule, (derives-Among g i rule).1 (lt, e), rw first (ground arith), rw first (omega arith))

  Begins-lt : (i j : ℕ) → Begins g i j → j < g.nsyms
  Begins-lt i j (by_rule rule lt e first h) = in_range (g.rrhs rule) j first

  Begins-ge : {i j : ℕ} → Begins g i j → g.start_symbol ≤ j
  Begins-ge (by_rule rule lt e first h) = h

  abbrev rows : Matrix
  rows = eff_rows g (nvars g) g.start_symbol

  related_row :
      (j k : ℕ)
      → j < nvars g
      → related rows j k ≡ bit (eff_loop g (zeros (width g)) (derives g (g.start_symbol + j))) k
  unfolding related
  related_row j k h = rw (row-eff_rows g (nvars g) g.start_symbol j h) refl

  rows-Begins :
      (j k : ℕ)
      → related rows j k ≡ true
      → (j < nvars g) × Begins g (g.start_symbol + j) (g.start_symbol + k)
  rows-Begins j k e =
      let h : j < nvars g =
        omega (arith, related-lt rows j k e, length-eff_rows g (nvars g) g.start_symbol) in
      (
        h,
        elim (eff_loop_sound g (zeros (width g)) (derives g (g.start_symbol + j)) k
            (derives-AllPositive (g.start_symbol + j) (omega arith))
            (sym (related_row j k h) ∙ e)) [
              | inl set ↦ let clash : false ≡ true = sym (bit-zeros (width g) k) ∙ set in absurd cc
              | inr b ↦ begins (g.start_symbol + j) k b
            ],
      )

  Begins-rows :
      (j k : ℕ)
      → j < nvars g
      → Begins g (g.start_symbol + j) (g.start_symbol + k)
      → related rows j k ≡ true
  Begins-rows j k h b =
      related_row j k h
      ∙ eff_loop-full g (zeros (width g)) (derives g (g.start_symbol + j)) k
          (derives-AllPositive (g.start_symbol + j) (omega arith))
          (omega (arith, length-zeros (width g), Begins-lt _ _ b))
          (begins_in (g.start_symbol + j) k b)

  Chain-Leads : (j k : ℕ) → Chain rows j k → Leads g (g.start_symbol + j) (g.start_symbol + k)
  Chain-Leads j k (last e) = begin (rows-Begins j k e).1 same
  Chain-Leads j k (step {m = m} e c) = begin (rows-Begins j m e).1 (Chain-Leads m k c)

  -- Where a chain of beginnings goes, it stays within the variables.
  Leads-Chain :
      (i l j k : ℕ)
      → Leads g i l
      → i ≡ g.start_symbol + j
      → l ≡ g.start_symbol + k
      → j < nvars g
      → (j ≡ k) ⊎ Chain rows j k
  Leads-Chain i l j k same e e' h = inl (omega arith)
  Leads-Chain i l j k (begin {j = m} b more) e e' h =
      let at_m : m ≡ g.start_symbol + (m - g.start_symbol) = omega (arith, Begins-ge b) in
      let b' = subst (λ x. Begins g x m) e b in
      let first =
        Begins-rows j (m - g.start_symbol) h
          (subst (λ x. Begins g (g.start_symbol + j) x) at_m b') in
      elim (Leads-Chain m l (m - g.start_symbol) k more at_m e'
        (omega (arith, Begins-lt i m b, Begins-ge b))) [
          | inl end ↦ inr (last (rw end at first))
          | inr c ↦ inr (step first c)
        ]

  -- EFF relates exactly the variables of which the first leads to the second by rules that begin with
  -- a variable.
  pub set_eff-Leads :
      (j k : ℕ)
      → (related (set_eff g) j k ≡ true)
        ↔ ((j < nvars g) × Leads g (g.start_symbol + j) (g.start_symbol + k))
  unfolding set_eff
  set_eff-Leads j k =
      let (sound, full) =
        reflexive_transitive_closure-Chain (width g) rows j k
          (eff_rows-AllSized g (nvars g) g.start_symbol)
          (omega (arith, length-eff_rows g (nvars g) g.start_symbol)) in
      let size = length-eff_rows g (nvars g) g.start_symbol in
      (
        λ e. elim (sound e) [
          | inl (here, h) ↦ (omega arith, rw here same)
          | inr c ↦ (omega (arith, Chain-lt rows j k c), Chain-Leads j k c)
        ],
        λ (h, leads). elim (Leads-Chain _ _ j k leads refl refl h) [
          | inl here ↦ full (inl (here, omega arith))
          | inr c ↦ full (inr c)
        ],
      )
