-- ===== src/Jay/Closure.antt =====
-- jay/closure.c: which rules begin what a variable derives, and the closure of a set of items.
pub mod First
pub mod Leads
pub mod Rules
pub mod Merge
pub mod Items
pub mod Order
use llc.Common.{ℕ, zero, suc, ◌+◌, ◌-◌, ◌^◌}
use llc.Common.{
  Bool, true, false, List, [], ◌∷◌, ◌++◌, length, get_or, replicate, leb, ltb, ◌==◌, if◌then◌else◌,
}
use llc.Common.Bits.{test_bit}
use llc.Jay.Bits.{set_bit, or_words, word_size, bits_per_word}
use llc.Jay.Grammar.{Grammar, Entry, symbol, end_of, nvars, is_var, derives}
use llc.Jay.Warshall.{Matrix, row, reflexive_transitive_closure}

-- The number of the variable that an entry is, counted from start_symbol.
abbrev pub var_number : Grammar → Entry → ℕ
var_number g (symbol s) = s - g.start_symbol
var_number g (end_of r) = 0

-- The inner loop of set_EFF, which stops at a rule that is not positive.
unfoldable pub eff_loop : Grammar → List ℕ → List ℕ → List ℕ
eff_loop g bits [] = bits
eff_loop g bits (rule ∷ rules) =
    let first = g.ritem (g.rrhs rule) in
    let added = eff_loop g (set_bit bits (var_number g first)) rules in
    let kept = eff_loop g bits rules in
    if rule == 0 then bits else if is_var g first then added else kept

-- The rows of EFF before they are closed, with `left` variables from symbol `i` on.
unfoldable pub eff_rows : Grammar → ℕ → ℕ → Matrix
eff_rows g zero i = []
eff_rows g (suc left) i =
    eff_loop g (replicate (word_size (nvars g)) 0) (derives g i) ∷ eff_rows g left (i + 1)

-- set_EFF.
unfoldable pub set_eff : Grammar → Matrix
set_eff g = reflexive_transitive_closure (eff_rows g (nvars g) g.start_symbol)

-- SETBIT(rrow, rule) for the rules of a variable.
unfoldable pub set_rules : List ℕ → List ℕ → List ℕ
set_rules rrow [] = rrow
set_rules rrow (rule ∷ rules) = set_rules (set_bit rrow rule) rules

-- `if (k >= BITS_PER_WORD) { cword = *vrow++; k = 0; }`: the count of the words that were read from
-- `vrow`, of which the last one is `cword`, and the bit.
unfoldable pub fetch : ℕ → ℕ → ℕ × ℕ
fetch word k = if leb bits_per_word k then (word + 1, 0) else (word, k)

-- The loop over `j` in set_first_derives.
unfoldable pub first_loop : Grammar → List ℕ → ℕ → ℕ → ℕ → ℕ → List ℕ → List ℕ
first_loop g vrow zero j word k rrow = rrow
first_loop g vrow (suc left) j word k rrow =
    let read = fetch word k in
    first_loop g vrow left (j + 1) read.0 (read.1 + 1)
      (if test_bit (get_or vrow (read.0 - 1) 0) read.1 then set_rules rrow (derives g j) else rrow)

-- `first_derives + symbol * rulesetsize`, as set_first_derives leaves it.
unfoldable pub first_derives : Grammar → ℕ → List ℕ
first_derives g i =
    first_loop g (row (set_eff g) (i - g.start_symbol)) (nvars g) g.start_symbol 0 bits_per_word
      (replicate (word_size g.nrules) 0)

-- What an entry behind an item's dot adds to the rule set.
unfoldable pub predict_rules : Grammar → List ℕ → Entry → List ℕ
predict_rules g rule_set (end_of r) = rule_set
predict_rules g rule_set (symbol s) =
    if leb g.start_symbol s then or_words rule_set (first_derives g s) else rule_set

-- The first loop of closure: the rules that the items of the nucleus predict.
unfoldable pub rule_loop : Grammar → List ℕ → List ℕ → List ℕ
rule_loop g rule_set [] = rule_set
rule_loop g rule_set (item ∷ nucleus) =
    rule_loop g (predict_rules g rule_set (g.ritem item)) nucleus

-- `*itemsetend++ = *csp++` while the item is below `itemno`: what is copied, and what is left.
unfoldable pub copy_below : ℕ → List ℕ → List ℕ × List ℕ
copy_below itemno [] = ([], [])
copy_below itemno (item ∷ csp) =
    let rest = copy_below itemno csp in
    if ltb item itemno then (item ∷ rest.0, rest.1) else ([], item ∷ csp)

-- `++csp` while the item is `itemno`.
unfoldable pub skip_same : ℕ → List ℕ → List ℕ
skip_same itemno [] = []
skip_same itemno (item ∷ csp) =
    let rest = skip_same itemno csp in if item == itemno then rest else item ∷ csp

-- What is appended to the item set, and the rest of the nucleus.
abbrev pub Merged : Type 0
Merged = List ℕ × List ℕ

unfoldable pub merge_item : ℕ → List ℕ → Merged
merge_item itemno csp =
    let (copied, rest) = copy_below itemno csp in (copied ++ itemno ∷ [], skip_same itemno rest)

-- The loop over the bits of a word, with `left` of them from bit `i` on.
unfoldable pub bit_loop : Grammar → ℕ → ℕ → ℕ → ℕ → List ℕ → Merged
bit_loop g ruleno word zero i csp = ([], csp)
bit_loop g ruleno word (suc left) i csp =
    let (items, rest) = merge_item (g.rrhs (ruleno + i)) csp in
    let taken = bit_loop g ruleno word left (i + 1) rest in
    let passed = bit_loop g ruleno word left (i + 1) csp in
    if test_bit word i then (items ++ taken.0, taken.1) else passed

-- The loop over the words of the rule set.
unfoldable pub word_loop : Grammar → ℕ → List ℕ → List ℕ → Merged
word_loop g ruleno [] csp = ([], csp)
word_loop g ruleno (word ∷ rule_set) csp =
    let (items, rest) =
      if word == 0 then ([], csp) else bit_loop g ruleno word bits_per_word 0 csp in
    let later = word_loop g (ruleno + bits_per_word) rule_set rest in (items ++ later.0, later.1)

-- closure: the item set.
unfoldable pub closure : Grammar → List ℕ → List ℕ
closure g nucleus =
    let rule_set = rule_loop g (replicate (word_size g.nrules) 0) nucleus in
    let (items, rest) = word_loop g 0 rule_set nucleus in items ++ rest
