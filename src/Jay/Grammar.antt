-- ===== src/Jay/Grammar.antt =====
-- The tables by which jay's passes know a grammar, and set_derives of jay/lr0.c.
pub mod Derives
pub mod Entries
use llc.Common.{
  ℕ, zero, suc, ◌+◌, ◌-◌, ◌%◌, ◌^◌, Bool, true, false, List, [], ◌∷◌, leb, ltb, ◌==◌, if◌then◌else◌,
}

-- An entry of ritem: a symbol, or the end of the right side of a rule, which the code keeps as the
-- rule's negative number; no right side of rule 0 is ended.
pub data Entry : Type 0 where
  symbol : ℕ → Entry
  end_of : ℕ → Entry

-- The tokens are the symbols below start_symbol, so that ntokens is the same number.
pub record Grammar : Type 0 where
  pub start_symbol : ℕ
  pub nsyms : ℕ
  pub nrules : ℕ
  pub nitems : ℕ
  pub ritem : ℕ → Entry
  pub rlhs : ℕ → ℕ
  pub rrhs : ℕ → ℕ

-- MAXSHORT of jay/defs.h.
abbrev pub maxshort : ℕ
maxshort = 32767

-- The 16 bits of a number that is stored in a short. From 2 ^ 15 on they stand for a negative one.
abbrev pub to_short : ℕ → ℕ
to_short n = n % 2 ^ 16

abbrev pub nvars : Grammar → ℕ
nvars g = g.nsyms - g.start_symbol

-- ISVAR, also on an entry that ends a rule.
abbrev pub is_var : Grammar → Entry → Bool
is_var g (symbol s) = leb g.start_symbol s
is_var g (end_of r) = false

-- The inner loop of set_derives, with `left` rules from rule `i` on. The list leaves out the -1 that
-- ends it.
unfoldable pub derives_loop : Grammar → ℕ → ℕ → ℕ → List ℕ
derives_loop g lhs zero i = []
derives_loop g lhs (suc left) i =
    let rules = derives_loop g lhs left (i + 1) in if g.rlhs i == lhs then i ∷ rules else rules

-- `derives[lhs]`.
unfoldable pub derives : Grammar → ℕ → List ℕ
derives g lhs = derives_loop g lhs g.nrules 0
