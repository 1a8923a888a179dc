-- ===== src/Jay/Nullable/Rules.antt =====
-- What it is for a symbol to derive the empty string.
use llc.Common.{ℕ, ◌+◌, ◌-◌, ◌≤◌, ◌<◌, ◌≡◌, ◌⊎◌}
use llc.Common.{Bool, true, false, List, get_or}
use llc.Jay.Grammar.{Grammar, symbol, end_of}

-- A right side begins at entry `p`.
abbrev pub Opens : Grammar → ℕ → Type 0
Opens g p = (p ≡ 1) ⊎ ((q : ℕ) × (r : ℕ) × (p ≡ q + 1) × (1 ≤ q) × (g.ritem q ≡ end_of r))

mutual
  -- A rule of the symbol has a right side of symbols that derive the empty string.
  pub data Nullable (g : Grammar) : ℕ → Type 0 where
    by_rule : (p r : ℕ) → Opens g p → Vanishes g r p → Nullable g (g.rlhs r)

  -- So do the symbols from entry `p` on to the end of rule `r`.
  pub data Vanishes (g : Grammar) : ℕ → ℕ → Type 0 where
    ends : {r p : ℕ} → p < g.nitems → g.ritem p ≡ end_of r → Vanishes g r p
    skips :
        {r p : ℕ} (s : ℕ)
        → p < g.nitems
        → g.ritem p ≡ symbol s
        → Nullable g s
        → Vanishes g r (p + 1)
        → Vanishes g r p

-- The symbols from entry `p` on to the end of rule `r` are flagged.
pub data Flagged (g : Grammar) (nullable : List Bool) : ℕ → ℕ → Type 0 where
  stop : {r p : ℕ} → p < g.nitems → g.ritem p ≡ end_of r → Flagged g nullable r p
  pass_on :
      {r p : ℕ} (s : ℕ)
      → p < g.nitems
      → g.ritem p ≡ symbol s
      → get_or nullable s false ≡ true
      → Flagged g nullable r (p + 1)
      → Flagged g nullable r p

-- The numbers in ritem and rlhs are those of symbols, and the last entry of ritem ends a rule.
pub record IsPacked (g : Grammar) : Type 0 where
  pub nonempty : 0 < g.nitems
  pub last : (r : ℕ) × (g.ritem (g.nitems - 1) ≡ end_of r)
  pub left_sides : (i r : ℕ) → g.ritem i ≡ end_of r → g.rlhs r < g.nsyms
