-- ===== src/Jay/Closure/First.antt =====
-- Which rules begin what a variable derives: set_EFF and set_first_derives.
use llc.Common.{ℕ, ◌/◌, ◌≤◌, ◌<◌, ◌≡◌, ◌⊎◌, inl, inr, refl, sym, ◌∙◌, arith}
use llc.Common.{true, false, List, [], ◌∷◌, length, Among, Bool-cases}
use native.Mathlib.Decide.{ℕ_discrete}
use llc.Jay.Bits.{bit, set_bit, length-set_bit, bit-set_bit_self, bit-set_bit_ne, set_bit-keeps}
use llc.Jay.Grammar.{Grammar, symbol, is_var}
use llc.Jay.Closure.{var_number, eff_loop}

-- The tables describe a grammar whose symbols and rules are numbered as jay numbers them.
pub record IsGrammar (g : Grammar) : Type 0 where
  pub vars : g.start_symbol ≤ g.nsyms
  pub no_rule_zero : g.rlhs 0 < g.start_symbol
  pub in_range : (i s : ℕ) → g.ritem i ≡ symbol s → s < g.nsyms

-- A rule of the variable `i` begins with the variable `j`.
pub data Begins (g : Grammar) (i j : ℕ) : Type 0 where
  by_rule :
      (rule : ℕ)
      → rule < g.nrules
      → g.rlhs rule ≡ i
      → g.ritem (g.rrhs rule) ≡ symbol j
      → g.start_symbol ≤ j
      → Begins g i j

-- A set of bits after the rules of a list have been looked at.
pub length-eff_loop :
    (g : Grammar) (bits rules : List ℕ) → length (eff_loop g bits rules) ≡ length bits
unfolding eff_loop
length-eff_loop g bits [] = refl
length-eff_loop g bits (rule ∷ rules) = ground (
  arith,
  length-eff_loop g (set_bit bits (var_number g (g.ritem (g.rrhs rule)))) rules,
  length-set_bit bits (var_number g (g.ritem (g.rrhs rule))),
  length-eff_loop g bits rules,
)

-- A rule of a list begins with variable number `k`.
abbrev pub BeginsIn : Grammar → List ℕ → ℕ → Type 0
BeginsIn g rules k =
    (rule : ℕ) × Among rule rules
    × (is_var g (g.ritem (g.rrhs rule)) ≡ true)
    × (var_number g (g.ritem (g.rrhs rule)) ≡ k)

abbrev pub AllPositive : List ℕ → Type 0
AllPositive [] = Unit
AllPositive (rule ∷ rules) = (0 < rule) × AllPositive rules

eff_loop-nil : (g : Grammar) (bits : List ℕ) → eff_loop g bits [] ≡ bits
unfolding eff_loop
eff_loop-nil g bits = refl

eff_loop-var :
    (g : Grammar) (bits rules : List ℕ) (rule : ℕ)
    → 0 < rule
    → is_var g (g.ritem (g.rrhs rule)) ≡ true
    → eff_loop g bits (rule ∷ rules)
      ≡ eff_loop g (set_bit bits (var_number g (g.ritem (g.rrhs rule)))) rules
unfolding eff_loop
eff_loop-var g bits rules rule h e = ground (arith, e)

eff_loop-token :
    (g : Grammar) (bits rules : List ℕ) (rule : ℕ)
    → 0 < rule
    → is_var g (g.ritem (g.rrhs rule)) ≡ false
    → eff_loop g bits (rule ∷ rules) ≡ eff_loop g bits rules
unfolding eff_loop
eff_loop-token g bits rules rule h e = ground (arith, e)

pub eff_loop_sound :
    (g : Grammar) (bits rules : List ℕ) (k : ℕ)
    → AllPositive rules
    → bit (eff_loop g bits rules) k ≡ true
    → (bit bits k ≡ true) ⊎ BeginsIn g rules k
eff_loop_sound g bits [] k pos e = inl (rw (eff_loop-nil g bits) at e)
eff_loop_sound g bits (rule ∷ rules) k (h, pos) e =
    elim (Bool-cases (is_var g (g.ritem (g.rrhs rule)))) [
      | inl v ↦
          let n = var_number g (g.ritem (g.rrhs rule)) in
          elim (eff_loop_sound g (set_bit bits n) rules k pos
            (rw (eff_loop-var g bits rules rule h v) at e)) [
              | inl set ↦ elim (ℕ_discrete n k) [
                | yes same ↦ inr (rule, inl refl, v, same)
                | no apart ↦ inl (sym (bit-set_bit_ne bits n k apart) ∙ set)
              ]
              | inr (r, m, v', e') ↦ inr (r, inr m, v', e')
            ]
      | inr t ↦
          elim (eff_loop_sound g bits rules k pos
            (rw (eff_loop-token g bits rules rule h t) at e)) [
              | inl set ↦ inl set
              | inr (r, m, v', e') ↦ inr (r, inr m, v', e')
            ]
    ]

eff_loop-keeps :
    (g : Grammar) (bits rules : List ℕ) (k : ℕ)
    → AllPositive rules
    → k / 32 < length bits
    → bit bits k ≡ true
    → bit (eff_loop g bits rules) k ≡ true
eff_loop-keeps g bits [] k pos room e = rw (eff_loop-nil g bits) e
eff_loop-keeps g bits (rule ∷ rules) k (h, pos) room e =
    elim (Bool-cases (is_var g (g.ritem (g.rrhs rule)))) [
      | inl v ↦
          let n = var_number g (g.ritem (g.rrhs rule)) in
          rw (eff_loop-var g bits rules rule h v) (
            eff_loop-keeps g (set_bit bits n) rules k pos (omega (arith, length-set_bit bits n))
              (set_bit-keeps bits n k room e))
      | inr t ↦ rw (eff_loop-token g bits rules rule h t) (eff_loop-keeps g bits rules k pos room e)
    ]

pub eff_loop-full :
    (g : Grammar) (bits rules : List ℕ) (k : ℕ)
    → AllPositive rules
    → k / 32 < length bits
    → BeginsIn g rules k
    → bit (eff_loop g bits rules) k ≡ true
eff_loop-full g bits [] k pos room (r, m, v, e) = elim m [ ]
eff_loop-full g bits (rule ∷ rules) k (h, pos) room (r, inl here, v, e) =
    let n = var_number g (g.ritem (g.rrhs rule)) in
    let v' : is_var g (g.ritem (g.rrhs rule)) ≡ true = rw here v in
    let e' : n ≡ k = rw here e in
    rw (eff_loop-var g bits rules rule h v') (
      eff_loop-keeps g (set_bit bits n) rules k pos (omega (arith, length-set_bit bits n))
        (rw e' (bit-set_bit_self bits k room)))
eff_loop-full g bits (rule ∷ rules) k (h, pos) room (r, inr m, v, e) =
    elim (Bool-cases (is_var g (g.ritem (g.rrhs rule)))) [
      | inl v' ↦
          let n = var_number g (g.ritem (g.rrhs rule)) in
          rw (eff_loop-var g bits rules rule h v') (
            eff_loop-full g (set_bit bits n) rules k pos (omega (arith, length-set_bit bits n))
              (r, m, v, e))
      | inr t ↦
          rw (eff_loop-token g bits rules rule h t)
            (eff_loop-full g bits rules k pos room (r, m, v, e))
    ]
