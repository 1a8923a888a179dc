-- ===== src/Jay/Grammar/Entries.antt =====
-- The two kinds of entries of ritem are apart, and their numbers are what they are.
use llc.Common.{ℕ, ◌≡◌}
use llc.Jay.Grammar.{symbol, end_of}

pub symbol-injective : {a b : ℕ} → symbol a ≡ symbol b → a ≡ b
symbol-injective e = cc

pub end_of-injective : {a b : ℕ} → end_of a ≡ end_of b → a ≡ b
end_of-injective e = cc

pub symbol-ne-end_of : {a b : ℕ} → symbol a ≡ end_of b → ⊥
symbol-ne-end_of e = cc
