-- ===== src/Jay/Closure/Order.antt =====
-- closure keeps items in order.
use llc.Common.{ℕ, zero, suc, ◌+◌, ◌≤◌, ◌<◌, ◌≡◌, inl, inr, sym, subst, ◌∙◌, arith}
use llc.Common.{
  true, false, List, [], ◌∷◌, ◌++◌, append_assoc, Bool-cases, ltb, ◌==◌, ==_refl, ==_ne,
  if◌then◌else◌,
}
use native.Mathlib.Decide.{ℕ_discrete}
use llc.Common.Bits.{test_bit}
use llc.Jay.Bits.{
  bit, bits_per_word, bit-word, bit-behind, zeros, word_size, length-zeros, bit-zeros,
}
use llc.Jay.Grammar.{Grammar}
use llc.Jay.Closure.{
  Merged, copy_below, skip_same, merge_item, bit_loop, word_loop, rule_loop, closure,
}
use llc.Jay.Closure.First.{IsGrammar}
use llc.Jay.Closure.Rules.{predict}
use llc.Jay.Closure.Items.{rule_loop_sound}

-- The numbers of a list grow, from `lo` on and below `hi`.
abbrev pub Rising : ℕ → ℕ → List ℕ → Type 0
Rising lo hi [] = Unit
Rising lo hi (x ∷ xs) = (lo ≤ x) × (x < hi) × Rising (x + 1) hi xs

Rising-weaken : (lo lo' hi : ℕ) (xs : List ℕ) → lo' ≤ lo → Rising lo hi xs → Rising lo' hi xs
Rising-weaken lo lo' hi [] le rising = tt
Rising-weaken lo lo' hi (x ∷ xs) le (low, high, rising) = (omega arith, high, rising)

Rising-append :
    (lo mid hi : ℕ) (xs ys : List ℕ)
    → lo ≤ mid
    → mid ≤ hi
    → Rising lo mid xs
    → Rising mid hi ys
    → Rising lo hi (xs ++ ys)
Rising-append lo mid hi [] ys le le' xs_rising ys_rising = Rising-weaken mid lo hi ys le ys_rising
Rising-append lo mid hi (x ∷ xs) ys le le' (low, high, xs_rising) ys_rising =
    (low, omega arith, Rising-append (x + 1) mid hi xs ys (omega arith) le' xs_rising ys_rising)

-- The rules of the variables have their right sides in ritem in the order of their numbers.
pub record IsOrdered (g : Grammar) : Type 0 where
  pub rules : (r r' : ℕ) → g.start_symbol ≤ g.rlhs r → r < r' → r' < g.nrules → g.rrhs r < g.rrhs r'
  pub inside : (r : ℕ) → r < g.nrules → g.rrhs r < g.nitems

copy_below-Rising :
    (lo itemno hi : ℕ) (csp : List ℕ)
    → Rising lo hi csp
    → Rising lo itemno (copy_below itemno csp).0 × Rising itemno hi (copy_below itemno csp).1
unfolding copy_below
copy_below-Rising lo itemno hi [] rising = (tt, tt)
copy_below-Rising lo itemno hi (item ∷ csp) (low, high, rising) =
    elim (Bool-cases (ltb item itemno)) [
      | inl less ↦
          let (copied, rest) = copy_below-Rising (item + 1) itemno hi csp rising in
          rw less ((low, ground (arith, less), copied), rest)
      | inr not_less ↦ rw not_less (tt, (ground (arith, not_less), high, rising))
    ]

skip_same-Rising :
    (itemno hi : ℕ) (csp : List ℕ)
    → Rising itemno hi csp
    → Rising (itemno + 1) hi (skip_same itemno csp)
unfolding skip_same
skip_same-Rising itemno hi [] rising = tt
skip_same-Rising itemno hi (item ∷ csp) (low, high, rising) = elim (ℕ_discrete item itemno) [
  | yes same ↦
      rw (same, ==_refl itemno)
        (skip_same-Rising itemno hi csp
          (Rising-weaken (item + 1) itemno hi csp (omega arith) rising))
  | no apart ↦ rw (==_ne item itemno apart) (omega arith, high, rising)
]

merge_item-Rising :
    (lo itemno hi : ℕ) (csp : List ℕ)
    → lo ≤ itemno
    → Rising lo hi csp
    → Rising lo (itemno + 1) (merge_item itemno csp).0
      × Rising (itemno + 1) hi (merge_item itemno csp).1
unfolding merge_item
merge_item-Rising lo itemno hi csp le rising =
    let (copied, rest) = copy_below-Rising lo itemno hi csp rising in
    (
      Rising-append lo itemno (itemno + 1) (copy_below itemno csp).0 (itemno ∷ []) le (omega arith)
          copied (omega arith, omega arith, tt),
      skip_same-Rising itemno hi (copy_below itemno csp).1 rest,
    )

module _ (g : Grammar) (ordered : IsOrdered g) where
  -- A rule of a variable.
  abbrev IsRule : ℕ → Type 0
  IsRule r = (g.start_symbol ≤ g.rlhs r) × (r < g.nrules)

  -- No item of a rule from `next` on is below `mid`.
  abbrev Ahead : ℕ → ℕ → Type 0
  Ahead mid next = (r : ℕ) → next ≤ r → r < g.nrules → mid ≤ g.rrhs r

  -- What is appended is in order, what is left is behind it, and so are the later rules.
  record InOrder (lo next : ℕ) (m : Merged) : Type 0 where
    pub mid : ℕ
    pub low : lo ≤ mid
    pub high : mid ≤ g.nitems
    pub items : Rising lo mid m.0
    pub rest : Rising mid g.nitems m.1
    pub ahead : Ahead mid next

  behind-InOrder :
      (lo mid next : ℕ) (items : List ℕ) (later : Merged)
      → lo ≤ mid
      → Rising lo mid items
      → InOrder mid next later
      → InOrder lo next (items ++ later.0, later.1)
  behind-InOrder lo mid next items later le rising ok =
      let le' = ok.low in
      record {
        mid = ok.mid;
        low = omega arith;
        high = ok.high;
        items = Rising-append lo mid ok.mid items later.0 le ok.low rising ok.items;
        rest = ok.rest;
        ahead = ok.ahead;
      }

  bit_loop-InOrder :
      (ruleno word left i lo : ℕ) (csp : List ℕ)
      → lo ≤ g.nitems
      → Rising lo g.nitems csp
      → Ahead lo (ruleno + i)
      → ((k : ℕ) → k < i + left → test_bit word k ≡ true → IsRule (ruleno + k))
      → InOrder lo (ruleno + (i + left)) (bit_loop g ruleno word left i csp)
  unfolding bit_loop
  bit_loop-InOrder ruleno word zero i lo csp le rising ahead known = record {
    mid = lo;
    low = omega arith;
    high = le;
    items = tt;
    rest = rising;
    ahead = λ r ge lt. ahead r (omega arith) lt;
  }
  bit_loop-InOrder ruleno word (suc left) i lo csp le rising ahead known =
      let e : i + suc left ≡ i + 1 + left = omega arith in
      elim (Bool-cases (test_bit word i)) [
        | inr off ↦
            rw (off, e)
              (bit_loop-InOrder ruleno word left (i + 1) lo csp le rising
                (λ r ge lt. ahead r (omega arith) lt) (λ k lt on. known k (omega arith) on))
        | inl on ↦
            let itemno = g.rrhs (ruleno + i) in
            let (var, lt) = known i (omega arith) on in
            let low = ahead (ruleno + i) (omega arith) lt in
            let inside = ordered.inside (ruleno + i) lt in
            let (items, rest) = merge_item-Rising lo itemno g.nitems csp low rising in
            rw (on, e)
              (behind-InOrder lo (itemno + 1) (ruleno + (i + 1 + left)) (merge_item itemno csp).0
                (bit_loop g ruleno word left (i + 1) (merge_item itemno csp).1) (omega arith) items
                (bit_loop-InOrder ruleno word left (i + 1) (itemno + 1) (merge_item itemno csp).1
                  (omega arith) rest
                  (λ r ge lt'.
                    let a = ordered.rules (ruleno + i) r var (omega arith) lt' in omega arith)
                  (λ k k_lt on'. known k (omega arith) on')))
      ]

  first_word-InOrder :
      (ruleno word lo : ℕ) (csp : List ℕ)
      → lo ≤ g.nitems
      → Rising lo g.nitems csp
      → Ahead lo ruleno
      → ((k : ℕ) → k < 32 → test_bit word k ≡ true → IsRule (ruleno + k))
      → InOrder lo
          (ruleno + 32)
          (if word == 0 then ([], csp) else bit_loop g ruleno word bits_per_word 0 csp)
  first_word-InOrder ruleno word lo csp le rising ahead known = elim (ℕ_discrete word 0) [
    | yes e ↦ rw e (record {
      mid = lo;
      low = omega arith;
      high = le;
      items = tt;
      rest = rising;
      ahead = λ r ge lt. ahead r (omega arith) lt;
    })
    | no ne ↦ rw (==_ne word 0 ne) (
        bit_loop-InOrder ruleno word 32 0 lo csp le rising (λ r ge lt. ahead r (omega arith) lt)
          (λ k lt on. known k lt on))
  ]

  -- The rules of the set are rules of the grammar.
  abbrev Known : ℕ → List ℕ → Type 0
  Known ruleno rules = (r : ℕ) → bit rules r ≡ true → IsRule (ruleno + r)

  word_loop-Rising :
      (ruleno lo : ℕ) (rules csp : List ℕ)
      → lo ≤ g.nitems
      → Rising lo g.nitems csp
      → Ahead lo ruleno
      → Known ruleno rules
      → Rising lo g.nitems ((word_loop g ruleno rules csp).0 ++ (word_loop g ruleno rules csp).1)
  unfolding word_loop
  word_loop-Rising ruleno lo [] csp le rising ahead known = rising
  word_loop-Rising ruleno lo (word ∷ rules) csp le rising ahead known =
      let first = if word == 0 then ([], csp) else bit_loop g ruleno word bits_per_word 0 csp in
      let ok : InOrder lo (ruleno + 32) first =
        first_word-InOrder ruleno word lo csp le rising ahead
          (λ k lt on. known k (bit-word word rules k lt ∙ on)) in
      let later =
        word_loop-Rising (ruleno + 32) ok.mid rules first.1 ok.high ok.rest ok.ahead (λ r on.
          let shift : ruleno + (r + 32) ≡ ruleno + 32 + r = omega arith in
          subst IsRule shift (known (r + 32) (bit-behind word rules r ∙ on))) in
      rw
        (append_assoc first.0 (word_loop g (ruleno + 32) rules first.1).0
          (word_loop g (ruleno + 32) rules first.1).1)
        (Rising-append lo ok.mid g.nitems first.0 _ ok.low ok.high ok.items later)

-- Where the right sides stand in ritem in the order of the rules, closure makes of a nucleus whose
-- items are in order an item set whose items are in order, each of them once.
pub closure-Rising :
    (g : Grammar) (nucleus : List ℕ)
    → IsGrammar g
    → IsOrdered g
    → Rising 0 g.nitems nucleus
    → Rising 0 g.nitems (closure g nucleus)
unfolding closure
closure-Rising g nucleus ok ordered rising =
    word_loop-Rising g ordered 0 0 (rule_loop g (zeros (word_size g.nrules)) nucleus) nucleus
      (omega arith) rising (λ r ge lt. omega arith)
      (λ r on.
        elim (rule_loop_sound g ok (zeros (word_size g.nrules)) nucleus r (length-zeros _) on) [
          | inl set ↦
              let clash : false ≡ true = sym (bit-zeros (word_size g.nrules) r) ∙ set in absurd cc
          | inr (item, m, (a, at, h, predict lt lo hi leads)) ↦
              let e : 0 + r ≡ r = omega arith in rw e (lo, lt)
        ])
