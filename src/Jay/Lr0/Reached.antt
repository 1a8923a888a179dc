-- ===== src/Jay/Lr0/Reached.antt =====
-- The item sets of the LR(0) automaton.
use llc.Common.{ℕ, ◌<◌, ◌≢◌, List, [], map}
use llc.Jay.Grammar.{Grammar, derives}
use llc.Jay.Closure.{closure}
use llc.Jay.Lr0.Kernel.{kernel_of}

-- The first items of the rules of the start symbol are one, and where `items` is one, so is what its
-- closure has behind a symbol, with the dot moved over it.
pub data Reached (g : Grammar) : List ℕ → Type 0 where
  first : Reached g (map (λ r. g.rrhs r) (derives g g.start_symbol))
  moved :
      {items : List ℕ} (s : ℕ)
      → Reached g items
      → 0 < s
      → kernel_of g s (closure g items) ≢ []
      → Reached g (kernel_of g s (closure g items))
