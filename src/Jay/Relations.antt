-- ===== src/Jay/Relations.antt =====
-- jay/lalr.c: build_relations, which makes lookback and includes, and transpose.
use llc.Common.{ℕ, zero, suc, ◌+◌, ◌-◌}
use llc.Common.{
  false, ◌&&◌, Option, none, some, List, [], ◌∷◌, ◌++◌, map, length, get_or, get_elem?, set,
  replicate, Run, done, fault, abort, stuck, ◌>>=◌, leb, ltb, ◌==◌, if◌then◌else◌,
}
use llc.Jay.Grammar.{Grammar, symbol, end_of, is_var, derives, maxshort}
use llc.Jay.Gotos.{map_goto}
use llc.Jay.Reads.{Reducing, Scene, symbol_of}

-- The loop of set_maxrhs, with `left` entries from entry `i` on.
unfoldable pub maxrhs_loop : Grammar → ℕ → ℕ → ℕ → ℕ → ℕ
maxrhs_loop g zero i length max = max
maxrhs_loop g (suc left) i length max = elim (g.ritem i) [
  | symbol s ↦ maxrhs_loop g left (i + 1) (length + 1) max
  | end_of r ↦ maxrhs_loop g left (i + 1) 0 (if ltb max length then length else max)
]

unfoldable pub set_maxrhs : Grammar → ℕ
set_maxrhs g = maxrhs_loop g g.nitems 0 0 0

-- The loop over the targets of a state: the first one on the symbol, or the last one.
unfoldable pub next_state : Scene → ℕ → ℕ → List ℕ → ℕ
next_state t symbol2 stateno [] = stateno
next_state t symbol2 stateno (k ∷ targets) =
    let rest = next_state t symbol2 k targets in if symbol_of t k == symbol2 then k else rest

-- The loop along a right side, on fuel: rp, stateno and states behind it.
unfoldable pub walk_right : Grammar → Scene → ℕ → ℕ → ℕ → ℕ → List ℕ → Run (ℕ × ℕ × List ℕ)
walk_right g t maxrhs zero rp stateno states = stuck
walk_right g t maxrhs (suc fuel) rp stateno states = elim (g.ritem rp) [
  | end_of r ↦ done (rp, stateno, states)
  | symbol symbol2 ↦ elim (get_or t.shift_table stateno none) [
    | none ↦ fault
    | some sp ↦
        let next = next_state t symbol2 stateno sp.shift in
        let rest = walk_right g t maxrhs fuel (rp + 1) next (states ++ next ∷ []) in
        if ltb maxrhs (length states) then fault else rest
  ]
]

-- The loop of add_lookback_edge, with `left` entries from entry `i` on.
unfoldable pub find_rule : List ℕ → ℕ → ℕ → ℕ → Option ℕ
find_rule la_ruleno ruleno zero i = none
find_rule la_ruleno ruleno (suc left) i =
    let rest = find_rule la_ruleno ruleno left (i + 1) in
    if get_or la_ruleno i 0 == ruleno then some i else rest

-- add_lookback_edge: the lists of lookback, the last edge first.
unfoldable pub add_lookback_edge : Reducing → ℕ → ℕ → ℕ → List (List ℕ) → Run (List (List ℕ))
add_lookback_edge la stateno ruleno gotono lookback =
    let i = get_or la.lookaheads stateno 0 in
    let k = get_or la.lookaheads (stateno + 1) 0 in
    elim (find_rule la.la_ruleno ruleno (k - i) i) [
      | none ↦ abort
      | some p ↦ done (set lookback p (gotono ∷ get_or lookback p []))
    ]

-- `edge[nedges++] = p`, where edge has room for ngotos + 1.
unfoldable pub push_edge : ℕ → ℕ → List ℕ → Run (List ℕ)
push_edge ngotos p edges = if ltb ngotos (length edges) then fault else done (edges ++ p ∷ [])

-- The loop back along the right side, from `rp` and `length` on. Rule 2 is the first one, and an entry
-- stands before its right side.
unfoldable pub walk_left : Grammar → Scene → List ℕ → ℕ → ℕ → List ℕ → Run (List ℕ)
walk_left g t states zero rp edges = if is_var g (g.ritem (rp - 1)) then fault else done edges
walk_left g t states (suc length) rp edges = elim (g.ritem (rp - 1)) [
  | end_of r ↦ done edges
  | symbol s ↦
      let pushed =
        map_goto g t.gotos (get_or states length 0) s >>= λ p. push_edge t.gotos.ngotos p edges in
      let further = pushed >>= λ later. walk_left g t states length (rp - 1) later in
      if ltb s g.start_symbol
      then done edges
      else if get_or t.nullable s false && ltb 0 length
      then further
      else pushed
]

-- The loop over the rules of symbol1, for goto `i`: lookback and the edges.
unfoldable pub relate_rules :
    Grammar → Scene → ℕ → ℕ → List ℕ → List (List ℕ) → List ℕ → Run (List (List ℕ) × List ℕ)
relate_rules g t i state1 [] lookback edges = done (lookback, edges)
relate_rules g t i state1 (rule ∷ rules) lookback edges =
    walk_right g t (set_maxrhs g) (g.nitems + 1) (g.rrhs rule) state1 (state1 ∷ [])
    >>= λ (rp, stateno, states). add_lookback_edge t.reducing stateno rule i lookback >>= λ added.
        walk_left g t states (length states - 1) rp edges >>= λ later.
        relate_rules g t i state1 rules added later

-- The loop over the gotos, with `left` gotos from goto `i` on: lookback, and includes before transpose.
unfoldable pub relate_gotos :
    Grammar → Scene → ℕ → ℕ → List (List ℕ) → Run (List (List ℕ) × List (List ℕ))
relate_gotos g t zero i lookback = done (lookback, [])
relate_gotos g t (suc left) i lookback =
    relate_rules g t i (get_or t.gotos.from_state i 0)
      (derives g (symbol_of t (get_or t.gotos.to_state i 0))) lookback []
    >>= λ (later, edges).
        relate_gotos g t left (i + 1) later >>= λ (last, includes). done (last, edges ∷ includes)

-- The arrays of transpose that it fills: the lists new_R, and the places of temp_R in them.
pub record Turning : Type 0 where
  pub new_r : List (List ℕ)
  pub temp_r : List ℕ

-- `nedges[*sp++]++` along a list of edges. It is a fault where there is no such entry, and where the
-- count is no short: then the code writes through a null pointer or behind a list.
unfoldable pub count_edges : List ℕ → List ℕ → Run (List ℕ)
count_edges [] nedges = done nedges
count_edges (j ∷ edges) nedges = elim (get_elem? nedges j) [
  | none ↦ fault
  | some k ↦
      let rest = count_edges edges (set nedges j (k + 1)) in if leb maxshort k then fault else rest
]

-- The loop over R[0] up to R[left - 1].
unfoldable pub count_rows : ℕ → List (List ℕ) → List ℕ → Run (List ℕ)
count_rows zero r nedges = done nedges
count_rows (suc left) [] nedges = fault
count_rows (suc left) (edges ∷ r) nedges = count_edges edges nedges >>= count_rows left r

-- `*temp_R[j]++ = i`.
unfoldable pub write_edge : ℕ → ℕ → Turning → Run Turning
write_edge i j s = elim (get_elem? s.temp_r j) [
  | none ↦ fault
  | some place ↦
      if ltb place (length (get_or s.new_r j []))
      then done (record {
        new_r = set s.new_r j (set (get_or s.new_r j []) place i);
        temp_r = set s.temp_r j (place + 1);
      })
      else fault
]

unfoldable pub fill_edges : ℕ → List ℕ → Turning → Run Turning
fill_edges i [] s = done s
fill_edges i (j ∷ edges) s = write_edge i j s >>= fill_edges i edges

unfoldable pub fill_rows : ℕ → ℕ → List (List ℕ) → Turning → Run Turning
fill_rows zero i r s = done s
fill_rows (suc left) i [] s = fault
fill_rows (suc left) i (edges ∷ r) s = fill_edges i edges s >>= fill_rows left (i + 1) r

-- transpose.
unfoldable pub transpose : List (List ℕ) → ℕ → Run (List (List ℕ))
transpose r n = count_rows n r (replicate n 0) >>= λ nedges.
    fill_rows n 0 r (record { new_r = map (λ k. replicate k 0) nedges; temp_r = replicate n 0 })
    >>= λ s. done s.new_r

-- build_relations: lookback and includes.
unfoldable pub build_relations : Grammar → Scene → Run (List (List ℕ) × List (List ℕ))
build_relations g t =
    relate_gotos g t t.gotos.ngotos 0 (replicate (length t.reducing.la_ruleno) [])
    >>= λ (lookback, includes).
        transpose includes t.gotos.ngotos >>= λ turned. done (lookback, turned)
