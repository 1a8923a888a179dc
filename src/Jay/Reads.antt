-- ===== src/Jay/Reads.antt =====
-- jay/lalr.c: initialize_LA and initialize_F. F is the list of its rows of bits; a list of numbers
-- that the code ends by -1 leaves the end out, and is [] for null.
use llc.Common.{ℕ, ◌+◌}
use llc.Common.{
  Bool, false, Option, none, some, List, [], ◌∷◌, ◌++◌, length, get_or, set, Run, done, ◌>>=◌, leb,
  if◌then◌else◌,
}
use llc.Jay.Bits.{word_size, zeros, set_bit}
use llc.Jay.Warshall.{Matrix, row}
use llc.Jay.Grammar.{Grammar}
use llc.Jay.Automaton.{Shifts, Reductions}
use llc.Jay.Digraph.{digraph}
use llc.Jay.Gotos.{Gotos, map_goto}

-- What initialize_LA leaves.
pub record Reducing : Type 0 where
  pub lookaheads : List ℕ
  pub la_ruleno : List ℕ

abbrev pub rules_of : Option Reductions → List ℕ
rules_of none = []
rules_of (some rp) = rp.rules

unfoldable pub lookaheads_loop : ℕ → List (Option Reductions) → List ℕ
lookaheads_loop k [] = k ∷ []
lookaheads_loop k (rp ∷ table) = k ∷ lookaheads_loop (k + length (rules_of rp)) table

unfoldable pub ruleno_loop : List (Option Reductions) → List ℕ
ruleno_loop [] = []
ruleno_loop (rp ∷ table) = rules_of rp ++ ruleno_loop table

unfoldable pub initialize_la : List (Option Reductions) → Reducing
initialize_la reduction_table = record {
  lookaheads = lookaheads_loop 0 reduction_table;
  la_ruleno = ruleno_loop reduction_table;
}

-- The tables that initialize_F and build_relations read.
pub record Scene : Type 0 where
  pub accessing_symbol : List ℕ
  pub shift_table : List (Option Shifts)
  pub nullable : List Bool
  pub gotos : Gotos
  pub reducing : Reducing

-- `accessing_symbol[state]`.
abbrev pub symbol_of : Scene → ℕ → ℕ
symbol_of t state = get_or t.accessing_symbol state 0

-- The loop that sets the bits of the tokens: the bits, and the targets from the first variable on.
unfoldable pub token_bits : Grammar → Scene → List ℕ → List ℕ → List ℕ × List ℕ
token_bits g t [] bits = (bits, [])
token_bits g t (k ∷ targets) bits =
    let rest = token_bits g t targets (set_bit bits (symbol_of t k)) in
    if leb g.start_symbol (symbol_of t k) then (bits, k ∷ targets) else rest

-- The loop over the other targets: the gotos of the symbols that may vanish.
unfoldable pub read_edges : Grammar → Scene → ℕ → List ℕ → Run (List ℕ)
read_edges g t stateno [] = done []
read_edges g t stateno (k ∷ targets) =
    let rest = read_edges g t stateno targets in
    if get_or t.nullable (symbol_of t k) false
    then (map_goto g t.gotos stateno (symbol_of t k) >>= λ p. rest >>= λ edges. done (p ∷ edges))
    else rest

-- A round of the loop over the gotos: the row of F and the edges.
unfoldable pub read_goto : Grammar → Scene → ℕ → Run (List ℕ × List ℕ)
read_goto g t stateno = elim (get_or t.shift_table stateno none) [
  | none ↦ done (zeros (word_size g.start_symbol), [])
  | some sp ↦
      let (bits, targets) = token_bits g t sp.shift (zeros (word_size g.start_symbol)) in
      read_edges g t stateno targets >>= λ edges. done (bits, edges)
]

-- The loop, over to_state.
unfoldable pub reads_loop : Grammar → Scene → List ℕ → Run (Matrix × List (List ℕ))
reads_loop g t [] = done ([], [])
reads_loop g t (stateno ∷ to_state) = read_goto g t stateno >>= λ (bits, edges).
    reads_loop g t to_state >>= λ (f, reads). done (bits ∷ f, edges ∷ reads)

-- `SETBIT(F, 0)`.
unfoldable pub end_bit : Matrix → Matrix
end_bit f = set f 0 (set_bit (row f 0) 0)

-- initialize_F.
unfoldable pub initialize_f : Grammar → Scene → Run Matrix
initialize_f g t =
    reads_loop g t t.gotos.to_state >>= λ (f, reads). digraph reads t.gotos.ngotos (end_bit f)
