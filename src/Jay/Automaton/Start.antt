-- ===== src/Jay/Automaton/Start.antt =====
-- The first state, and the automaton that is made from it.
use llc.Jay.Grammar.{Grammar}
use llc.Jay.Lr0.Reached.{Reached}
use llc.Jay.Automaton.{Automaton}
