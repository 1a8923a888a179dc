-- ===== src/Jay/Gotos/Find.antt =====
-- map_goto finds the goto of a state and a symbol.
use llc.Common.{ℕ, zero, suc, ◌+◌, ◌-◌, ◌/◌, ◌≤◌, ◌<◌, ◌≡◌, arith}
use llc.Common.{some, List, length, get_or, get_elem?, get_elem?-lt, done}
use native.Mathlib.Decide.{ℕ_discrete, dec_lt}
use llc.Jay.Grammar.{Grammar}
use llc.Jay.Gotos.{Gotos, find_goto, map_goto}

-- The states grow along the gotos from `first` up to the one before `last`.
abbrev pub GrowingSpan : List ℕ → ℕ → ℕ → Type 0
GrowingSpan from_state first last =
    (i j s t : ℕ)
    → first ≤ i
    → i < j
    → j < last
    → get_elem? from_state i ≡ some s
    → get_elem? from_state j ≡ some t
    → s < t

module _ (from_state : List ℕ) (first last state p : ℕ) where
  module _ (inside : last ≤ length from_state) (growing : GrowingSpan from_state first last) where
    find_goto_lem :
        (fuel low high : ℕ)
        → get_elem? from_state p ≡ some state
        → first ≤ low
        → low ≤ p
        → p < last
        → p ≤ high
        → high ≤ last
        → high - low < fuel
        → find_goto from_state state fuel low high ≡ done p
    unfolding find_goto
    find_goto_lem zero low high at a b z c d room = absurd (omega arith)
    find_goto_lem (suc fuel) low high at a b z c d room =
        let (s, e) = get_elem?-lt from_state ((low + high) / 2) (omega arith) in
        elim (ℕ_discrete ((low + high) / 2) p) [
          | yes middle ↦ let same : s ≡ state = cc in rw (e, middle) (ground (arith, same))
          | no ne ↦ elim (dec_lt ((low + high) / 2) p) [
            | yes before ↦
                let less = growing ((low + high) / 2) p s state (omega arith) before z e at in
                let rest =
                  find_goto_lem fuel ((low + high) / 2 + 1) high at (omega arith) (omega arith) z c
                    d (omega arith) in
                rw e (ground (arith, rest, less))
            | no behind ↦
                let less =
                  growing p ((low + high) / 2) state s (omega arith) (omega arith) (omega arith) at
                    e in
                let rest =
                  find_goto_lem fuel low ((low + high) / 2 - 1) at a (omega arith) z (omega arith)
                    (omega arith) (omega arith) in
                rw e (ground (arith, rest, less))
          ]
        ]

-- Where the states grow along the gotos of a symbol, map_goto ends and answers the goto of the
-- symbol that leaves the state, if there is one.
pub map_goto-finds :
    (g : Grammar) (gotos : Gotos) (state symbol p : ℕ)
    → get_or gotos.goto_map (symbol + 1 - g.start_symbol) 0 ≤ length gotos.from_state
    → GrowingSpan gotos.from_state
        (get_or gotos.goto_map (symbol - g.start_symbol) 0)
        (get_or gotos.goto_map (symbol + 1 - g.start_symbol) 0)
    → get_or gotos.goto_map (symbol - g.start_symbol) 0 ≤ p
    → p < get_or gotos.goto_map (symbol + 1 - g.start_symbol) 0
    → get_elem? gotos.from_state p ≡ some state
    → map_goto g gotos state symbol ≡ done p
unfolding map_goto
map_goto-finds g gotos state symbol p inside growing above below at =
    let low = get_or gotos.goto_map (symbol - g.start_symbol) 0 in
    let high = get_or gotos.goto_map (symbol + 1 - g.start_symbol) 0 in
    find_goto_lem gotos.from_state low high state p inside growing (high - low + 2) low high at
      (omega arith) above below (omega arith) (omega arith) (omega arith)
