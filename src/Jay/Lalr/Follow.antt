-- ===== src/Jay/Lalr/Follow.antt =====
-- lalr as a whole: the lookahead sets are those of the relations reads, includes and lookback.
use llc.Common.{ℕ, ◌<◌, ◌≡◌, ◌↔◌}
use llc.Common.{true, List, [], length, get_or, Among}
use llc.Jay.Bits.{word_size}
use llc.Jay.Warshall.{Matrix}
use llc.Jay.Warshall.Round.{related}
use llc.Jay.Grammar.{Grammar}
use llc.Jay.Automaton.{Automaton}
use llc.Jay.Digraph.State.{Gathers}
use llc.Jay.Gotos.{Gotos}
use llc.Jay.Reads.{Scene, end_bit}
use llc.Jay.Lalr.Read.{Reads}
use llc.Jay.Lalr.Direct.{Directly}
use llc.Jay.Lalr.Built.{Includes, LooksBack, from_of, rules_at, Built}

-- The follow set of goto `p` takes in that of `q`: `p` is in the list of `k`, and so on up to `q`.
pub data Flows (includes : List (List ℕ)) : ℕ → ℕ → Type 0 where
  same : {p : ℕ} → Flows includes p p
  up : {p k q : ℕ} → Among p (get_or includes k []) → Flows includes k q → Flows includes p q

-- The token `b` follows goto `p`: `p` flows to a goto from which reads leads to one that is followed
-- by `b` at once.
abbrev pub Follows : List (List ℕ) → List (List ℕ) → Matrix → ℕ → ℕ → Type 0
Follows includes reads f p b = (q : ℕ) × Flows includes p q × Gathers reads (end_bit f) q b

module _ (g : Grammar) (t : Scene) where
  abbrev n : ℕ
  n = t.gotos.ngotos

  abbrev words : ℕ
  words = word_size g.start_symbol

-- The edges of the relations, and the bits of F, by the rules and the shifts: reads leads from a goto to
-- those on symbols that derive the empty string, from the state it enters; F has the tokens that this
-- state shifts; lookback leads from the place of a rule in LAruleno to the gotos from whose states the
-- rule's right side leads there; includes leads from a goto to those on the variables in its rules' right
-- sides behind which all derives the empty string.
pub record AreRelations (g : Grammar) (t : Scene) (f : Matrix)
    (reads lookback includes : List (List ℕ)) : Type 0 where
  pub read :
      (v p : ℕ)
      → v < t.gotos.ngotos
      → Among p (get_or reads v []) ↔ Reads g t (get_or t.gotos.to_state v 0) p
  pub direct :
      (v b : ℕ)
      → v < t.gotos.ngotos
      → (related f v b ≡ true) ↔ Directly g t (get_or t.gotos.to_state v 0) b
  pub looked :
      (r p : ℕ)
      → r < length t.reducing.la_ruleno
      → Among p (get_or lookback r []) ↔ (
          (p < t.gotos.ngotos)
          × ((rule : ℕ) × Among rule (rules_at g t p) × LooksBack g t (from_of g t p) rule r))
  pub included :
      (v p : ℕ)
      → v < t.gotos.ngotos
      → Among p (get_or includes v [])
        ↔ ((rule : ℕ) × Among rule (rules_at g t v) × Includes g t (from_of g t v) rule p)
