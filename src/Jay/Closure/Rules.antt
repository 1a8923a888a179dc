-- ===== src/Jay/Closure/Rules.antt =====
-- FIRST DERIVES: the rules by which what a variable derives can begin.
use llc.Common.{
  ℕ, zero, suc, ◌+◌, ◌-◌, ◌*◌, ◌/◌, ◌%◌, ◌≤◌, ◌<◌, ◌≡◌, ◌⊎◌, ◌↔◌, inl, inr, refl, sym, ap, subst,
  ◌∙◌, arith,
}
use llc.Common.{Bool, true, false, List, [], ◌∷◌, length, Among, Bool-cases, if◌then◌else◌}
use native.Mathlib.Decide.{ℕ_discrete}
use llc.Jay.Bits.{
  bit, set_bit, word_size, length-set_bit, bit-set_bit_self, bit-set_bit_ne, bit-zeros,
  set_bit-keeps, zeros, length-zeros,
}
use llc.Jay.Grammar.{Grammar, nvars, derives}
use llc.Jay.Grammar.Derives.{derives-Among}
use llc.Jay.Warshall.{row}
use llc.Jay.Warshall.Round.{related}
use llc.Jay.Closure.First.{IsGrammar}
use llc.Jay.Closure.Leads.{Leads, set_eff-Leads}
use llc.Jay.Closure.{set_eff, set_rules, fetch, first_loop, first_derives}

pub length-set_rules : (rrow rules : List ℕ) → length (set_rules rrow rules) ≡ length rrow
unfolding set_rules
length-set_rules rrow [] = refl
length-set_rules rrow (r ∷ rules) = length-set_rules (set_bit rrow r) rules ∙ length-set_bit rrow r

set_rules_sound :
    (rrow rules : List ℕ) (r : ℕ)
    → bit (set_rules rrow rules) r ≡ true
    → (bit rrow r ≡ true) ⊎ Among r rules
unfolding set_rules
set_rules_sound rrow [] r e = inl e
set_rules_sound rrow (q ∷ rules) r e = elim (set_rules_sound (set_bit rrow q) rules r e) [
  | inl set ↦ elim (ℕ_discrete q r) [
    | yes same ↦ inr (inl same)
    | no apart ↦ inl (sym (bit-set_bit_ne rrow q r apart) ∙ set)
  ]
  | inr m ↦ inr (inr m)
]

set_rules-keeps :
    (rrow rules : List ℕ) (r : ℕ)
    → r / 32 < length rrow
    → bit rrow r ≡ true
    → bit (set_rules rrow rules) r ≡ true
unfolding set_rules
set_rules-keeps rrow [] r room e = e
set_rules-keeps rrow (q ∷ rules) r room e =
    set_rules-keeps (set_bit rrow q) rules r (omega (arith, length-set_bit rrow q))
      (set_bit-keeps rrow q r room e)

set_rules-full :
    (rrow rules : List ℕ) (r : ℕ)
    → r / 32 < length rrow
    → Among r rules
    → bit (set_rules rrow rules) r ≡ true
unfolding set_rules
set_rules-full rrow [] r room m = elim m [ ]
set_rules-full rrow (q ∷ rules) r room (inl here) =
    set_rules-keeps (set_bit rrow q) rules r (omega (arith, length-set_bit rrow q))
      (rw here (bit-set_bit_self rrow r room))
set_rules-full rrow (q ∷ rules) r room (inr m) =
    set_rules-full (set_bit rrow q) rules r (omega (arith, length-set_bit rrow q)) m

-- What a round makes of the rule set, at the variable whose bit stands at `n` in the row of EFF.
abbrev offered : Grammar → List ℕ → ℕ → ℕ → List ℕ → List ℕ
offered g vrow j n rrow = if bit vrow n then set_rules rrow (derives g j) else rrow

fetch-at :
    (word k n : ℕ)
    → n + 32 ≡ word * 32 + k
    → k ≤ 32
    → ((fetch word k).0 ≡ n / 32 + 1) × ((fetch word k).1 ≡ n % 32)
unfolding fetch
fetch-at word k n at small = ground arith

first_loop-end :
    (g : Grammar) (vrow : List ℕ) (j word k : ℕ) (rrow : List ℕ)
    → first_loop g vrow zero j word k rrow ≡ rrow
unfolding first_loop
first_loop-end g vrow j word k rrow = refl

zero_add : (n : ℕ) → 0 + n ≡ n
zero_add n = omega arith

add_zero : (n : ℕ) → n + 0 ≡ n
add_zero n = omega arith

add_one : (n i : ℕ) → n + (i + 1) ≡ n + 1 + i
add_one n i = omega arith

length-offered :
    (g : Grammar) (vrow : List ℕ) (j n : ℕ) (rrow : List ℕ)
    → length (offered g vrow j n rrow) ≡ length rrow
length-offered g vrow j n rrow = elim (Bool-cases (bit vrow n)) [
  | inl e ↦ rw e (length-set_rules rrow (derives g j))
  | inr e ↦ rw e refl
]

offered-keeps :
    (g : Grammar) (vrow : List ℕ) (j n : ℕ) (rrow : List ℕ) (r : ℕ)
    → r / 32 < length rrow
    → bit rrow r ≡ true
    → bit (offered g vrow j n rrow) r ≡ true
offered-keeps g vrow j n rrow r room set = elim (Bool-cases (bit vrow n)) [
  | inl e ↦ rw e (set_rules-keeps rrow (derives g j) r room set)
  | inr e ↦ rw e set
]

-- The round reads bit `n` where `word` and `k` have got so far.
first_loop-round :
    (g : Grammar) (vrow : List ℕ) (left j word k n : ℕ) (rrow : List ℕ)
    → n + 32 ≡ word * 32 + k
    → k ≤ 32
    → first_loop g vrow (suc left) j word k rrow
      ≡ first_loop g vrow left (j + 1) (n / 32 + 1) (n % 32 + 1) (offered g vrow j n rrow)
unfolding first_loop bit
first_loop-round g vrow left j word k n rrow at small =
    let (w, b) = fetch-at word k n at small in
    let back : n / 32 + 1 - 1 ≡ n / 32 = omega arith in rw (w, b) (rw back refl)

-- A variable at one of the next bits is set in the row, and one of its rules is `r`.
abbrev pub Offers : Grammar → List ℕ → ℕ → ℕ → ℕ → ℕ → Type 0
Offers g vrow left j n r =
    (i : ℕ) × (i < left) × (bit vrow (n + i) ≡ true) × Among r (derives g (j + i))

offered-true :
    (g : Grammar) (vrow : List ℕ) (j n : ℕ) (rrow : List ℕ)
    → bit vrow n ≡ true
    → offered g vrow j n rrow ≡ set_rules rrow (derives g j)
offered-true g vrow j n rrow e = rw e refl

offered-false :
    (g : Grammar) (vrow : List ℕ) (j n : ℕ) (rrow : List ℕ)
    → bit vrow n ≡ false
    → offered g vrow j n rrow ≡ rrow
offered-false g vrow j n rrow e = rw e refl

first_loop_sound :
    (g : Grammar) (vrow : List ℕ) (left j word k n : ℕ) (rrow : List ℕ) (r : ℕ)
    → n + 32 ≡ word * 32 + k
    → k ≤ 32
    → bit (first_loop g vrow left j word k rrow) r ≡ true
    → (bit rrow r ≡ true) ⊎ Offers g vrow left j n r
first_loop_sound g vrow zero j word k n rrow r at small e =
    inl (rw (first_loop-end g vrow j word k rrow) at e)
first_loop_sound g vrow (suc left) j word k n rrow r at small e =
    let e' = rw (first_loop-round g vrow left j word k n rrow at small) at e in
    elim (first_loop_sound g vrow left (j + 1) (n / 32 + 1) (n % 32 + 1) (n + 1)
      (offered g vrow j n rrow) r (omega arith) (omega arith) e') [
        | inl set ↦ elim (Bool-cases (bit vrow n)) [
          | inl on ↦
              elim (set_rules_sound rrow (derives g j) r
                (rw (offered-true g vrow j n rrow on) at set)) [
                  | inl before ↦ inl before
                  | inr m ↦ inr (
                    0,
                    omega arith,
                    ap (bit vrow) (add_zero n) ∙ on,
                    subst (λ x. Among r (derives g x)) (sym (add_zero j)) m,
                  )
                ]
          | inr off ↦ inl (rw (offered-false g vrow j n rrow off) at set)
        ]
        | inr (i, lt, on, m) ↦ inr (
          i + 1,
          omega arith,
          ap (bit vrow) (add_one n i) ∙ on,
          subst (λ x. Among r (derives g x)) (sym (add_one j i)) m,
        )
      ]

first_loop-keeps :
    (g : Grammar) (vrow : List ℕ) (left j word k n : ℕ) (rrow : List ℕ) (r : ℕ)
    → n + 32 ≡ word * 32 + k
    → k ≤ 32
    → r / 32 < length rrow
    → bit rrow r ≡ true
    → bit (first_loop g vrow left j word k rrow) r ≡ true
first_loop-keeps g vrow zero j word k n rrow r at small room e =
    rw (first_loop-end g vrow j word k rrow) e
first_loop-keeps g vrow (suc left) j word k n rrow r at small room e =
    rw (first_loop-round g vrow left j word k n rrow at small) (
      first_loop-keeps g vrow left (j + 1) (n / 32 + 1) (n % 32 + 1) (n + 1)
        (offered g vrow j n rrow) r (omega arith) (omega arith)
        (omega (arith, length-offered g vrow j n rrow)) (offered-keeps g vrow j n rrow r room e))

first_loop-full :
    (g : Grammar) (vrow : List ℕ) (left j word k n : ℕ) (rrow : List ℕ) (r : ℕ)
    → n + 32 ≡ word * 32 + k
    → k ≤ 32
    → r / 32 < length rrow
    → Offers g vrow left j n r
    → bit (first_loop g vrow left j word k rrow) r ≡ true
first_loop-full g vrow zero j word k n rrow r at small room (i, lt, on, m) = absurd (omega arith)
first_loop-full g vrow (suc left) j word k n rrow r at small room (zero, lt, on, m) =
    rw (first_loop-round g vrow left j word k n rrow at small) (
      first_loop-keeps g vrow left (j + 1) (n / 32 + 1) (n % 32 + 1) (n + 1)
        (offered g vrow j n rrow) r (omega arith) (omega arith)
        (omega (arith, length-offered g vrow j n rrow))
        (rw (offered-true g vrow j n rrow (ap (bit vrow) (sym (add_zero n)) ∙ on)) (
          set_rules-full rrow (derives g j) r room
            (subst (λ x. Among r (derives g x)) (add_zero j) m))))
first_loop-full g vrow (suc left) j word k n rrow r at small room (suc i, lt, on, m) =
    let up : (x : ℕ) → x + suc i ≡ x + 1 + i = λ x. omega arith in
    rw (first_loop-round g vrow left j word k n rrow at small) (
      first_loop-full g vrow left (j + 1) (n / 32 + 1) (n % 32 + 1) (n + 1)
        (offered g vrow j n rrow) r (omega arith) (omega arith)
        (omega (arith, length-offered g vrow j n rrow))
        (
          i,
          omega arith,
          ap (bit vrow) (sym (up n)) ∙ on,
          subst (λ x. Among r (derives g x)) (up j) m,
        ))

-- What an item before the variable `a` predicts: a rule of a variable to which `a` leads.
pub data Predicts (g : Grammar) (a r : ℕ) : Type 0 where
  predict :
      r < g.nrules
      → g.start_symbol ≤ g.rlhs r
      → g.rlhs r < g.nsyms
      → Leads g a (g.rlhs r)
      → Predicts g a r

length-first_loop :
    (g : Grammar) (vrow : List ℕ) (left j word k : ℕ) (rrow : List ℕ)
    → length (first_loop g vrow left j word k rrow) ≡ length rrow
unfolding first_loop
length-first_loop g vrow zero j word k rrow = refl
length-first_loop g vrow (suc left) j word k rrow =
    length-first_loop g vrow left _ _ _ _ ∙ length-step _
  where
    length-step :
        (b : Bool) → length (if b then set_rules rrow (derives g j) else rrow) ≡ length rrow
    length-step true = length-set_rules rrow (derives g j)
    length-step false = refl

pub length-first_derives : (g : Grammar) (a : ℕ) → length (first_derives g a) ≡ word_size g.nrules
unfolding first_derives
length-first_derives g a =
    length-first_loop g _ _ _ _ _ (zeros (word_size g.nrules)) ∙ length-zeros _

module _ (g : Grammar) (a : ℕ) (ok : IsGrammar g) (lo : g.start_symbol ≤ a) (hi : a < g.nsyms) where
  abbrev n₀ : ℕ
  n₀ = a - g.start_symbol

  abbrev eff_row : List ℕ
  eff_row = row (set_eff g) n₀

  back : g.start_symbol + n₀ ≡ a
  back = omega arith

  eff_row-Leads : (i : ℕ) → bit eff_row i ≡ true → Leads g a (g.start_symbol + i)
  unfolding related
  eff_row-Leads i on =
      subst (λ x. Leads g x (g.start_symbol + i)) back ((set_eff-Leads g ok n₀ i).0 on).1

  Leads-eff_row : (i : ℕ) → Leads g a (g.start_symbol + i) → bit eff_row i ≡ true
  unfolding related
  Leads-eff_row i leads =
      (set_eff-Leads g ok n₀ i).1
        (omega arith, subst (λ x. Leads g x (g.start_symbol + i)) (sym back) leads)

  offers : (r : ℕ) → Predicts g a r → Offers g eff_row (nvars g) g.start_symbol 0 r
  offers r (predict lt from to leads) =
      let i = g.rlhs r - g.start_symbol in
      let at : g.rlhs r ≡ g.start_symbol + i = omega arith in
      (
        i,
        omega arith,
        ap (bit eff_row) (zero_add i) ∙ Leads-eff_row i (subst (λ x. Leads g a x) at leads),
        (derives-Among g (g.start_symbol + i) r).1 (lt, at),
      )

  predicts : (r : ℕ) → Offers g eff_row (nvars g) g.start_symbol 0 r → Predicts g a r
  predicts r (i, lt, on, m) =
      let (small, at) = (derives-Among g (g.start_symbol + i) r).0 m in
      predict small (omega arith) (omega arith) (
        subst (λ x. Leads g a x) (sym at)
          (eff_row-Leads i (ap (bit eff_row) (sym (zero_add i)) ∙ on)))

  -- The row of a variable in FIRST DERIVES holds the rules of the variables to which it leads by rules
  -- that begin with a variable.
  pub first_derives-Predicts : (r : ℕ) → (bit (first_derives g a) r ≡ true) ↔ Predicts g a r
  unfolding first_derives
  first_derives-Predicts r = (
    λ e.
        elim (first_loop_sound g eff_row (nvars g) g.start_symbol 0 32 0
          (zeros (word_size g.nrules)) r refl (omega arith) e) [
            | inl set ↦
                let clash : false ≡ true = sym (bit-zeros (word_size g.nrules) r) ∙ set in absurd cc
            | inr o ↦ predicts r o
          ],
    λ p.
        first_loop-full g eff_row (nvars g) g.start_symbol 0 32 0 (zeros (word_size g.nrules)) r
          refl (omega arith) (room r p) (offers r p),
  )
    where
      room : (r : ℕ) → Predicts g a r → r / 32 < length (zeros (word_size g.nrules))
      room r (predict lt from to leads) = omega (arith, length-zeros (word_size g.nrules))
