-- ===== src/Jay/Digraph.antt =====
-- digraph and traverse of jay/lalr.c: each vertex of a relation gathers the bits of all the vertices
-- that it leads to. The relation is the list of the vertices' edges, [] for null: a list that is not
-- null has an edge. F is the list of its rows. The entries of INDEX are shorts: the greatest of them,
-- infinity, is ngotos + 2, and digraph faults where that is no short.
pub mod Stack
pub mod State
pub mod Edge
pub mod Step
pub mod Take
pub mod Pop
pub mod Component
pub mod Visit
pub mod Gather
use llc.Common.{ℕ, zero, suc, ◌+◌}
use llc.Common.{
  Bool, true, false, ◌&&◌, not, List, [], ◌∷◌, length, get_or, set, replicate, Run, done, fault,
  stuck, ◌>>=◌, ltb, ◌==◌, if◌then◌else◌,
}
use llc.Jay.Grammar.{maxshort}
use llc.Jay.Bits.{or_words}
use llc.Jay.Warshall.{Matrix, row}

-- INDEX, VERTICES from VERTICES[top] down to VERTICES[1], and F.
pub record Walk : Type 0 where
  pub index : List ℕ
  pub vertices : List ℕ
  pub f : Matrix

abbrev pub index_of : Walk → ℕ → ℕ
index_of st i = get_or st.index i 0

-- What traverse does with an edge from `i` behind the visit of `j`.
unfoldable pub take_edge : ℕ → ℕ → Walk → Walk
take_edge i j st = record st {
  index = if ltb (index_of st j) (index_of st i) then set st.index i (index_of st j) else st.index;
  f = set st.f i (or_words (row st.f i) (row st.f j));
}

-- `if (INDEX[j] == 0) traverse(j)`.
unfoldable pub visit : (ℕ → Walk → Run Walk) → ℕ → Walk → Run Walk
visit go j st = if index_of st j == 0 then go j st else done st

-- The loop over the edges of `i`; `go` is traverse.
unfoldable pub edge_loop : (ℕ → Walk → Run Walk) → ℕ → List ℕ → Walk → Run Walk
edge_loop go i [] st = done st
edge_loop go i (j ∷ edges) st =
    visit go j st >>= λ later. edge_loop go i edges (take_edge i j later)

-- The loop that takes vertices off the stack, down to `i`.
unfoldable pub pop_loop : ℕ → ℕ → List ℕ → List ℕ → Matrix → Run Walk
pop_loop infinity i index [] f = fault
pop_loop infinity i index (j ∷ vertices) f =
    let rest = pop_loop infinity i (set index j infinity) vertices (set f j (row f i)) in
    if i == j
    then done (record { index = set index j infinity; vertices = vertices; f = f })
    else rest

-- `if (INDEX[i] == height)`.
unfoldable pub finish : ℕ → ℕ → ℕ → Walk → Run Walk
finish infinity height i st =
    if index_of st i == height then pop_loop infinity i st.index st.vertices st.f else done st

-- VERTICES and INDEX at the start of traverse.
abbrev pub enter : ℕ → Walk → Walk
enter i st = record st {
  index = set st.index i (suc (length st.vertices));
  vertices = i ∷ st.vertices;
}

-- traverse, on fuel for the depth of the calls.
unfoldable pub traverse : List (List ℕ) → ℕ → ℕ → ℕ → Walk → Run Walk
traverse r infinity zero i st = stuck
traverse r infinity (suc fuel) i st =
    edge_loop (traverse r infinity fuel) i (get_or r i []) (enter i st) >>= λ later.
    finish infinity (suc (length st.vertices)) i later

abbrev pub not_null : List ℕ → Bool
not_null [] = false
not_null (j ∷ edges) = true

-- The loop of digraph, with `left` vertices from vertex `i` on.
unfoldable pub vertex_loop : List (List ℕ) → ℕ → ℕ → ℕ → ℕ → Walk → Run Walk
vertex_loop r infinity fuel zero i st = done st
vertex_loop r infinity fuel (suc left) i st =
    (if index_of st i == 0 && not_null (get_or r i [])
      then traverse r infinity fuel i st
      else done st)
    >>= λ later. vertex_loop r infinity fuel left (i + 1) later

-- digraph, with ngotos vertices: F as it leaves it. Where `INDEX[j] = infinity` converts a number that is
-- no short it is a fault. A call of traverse marks a vertex, so that
-- ngotos + 1 levels are enough.
unfoldable pub digraph : List (List ℕ) → ℕ → Matrix → Run Matrix
digraph r ngotos f =
    if ltb maxshort (ngotos + 2)
    then fault
    else (vertex_loop r (ngotos + 2) (ngotos + 1) ngotos 0
          (record { index = replicate ngotos 0; vertices = []; f = f })
        >>= λ st. done st.f)
