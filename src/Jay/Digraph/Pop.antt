-- ===== src/Jay/Digraph/Pop.antt =====
-- The vertices that traverse takes off the stack together.
use llc.Common.{ℕ, suc, ◌<◌, ◌≡◌, ◌≢◌, ◌⊎◌, inl, inr, refl, sym, ◌∙◌, arith}
use llc.Common.{
  List, [], ◌∷◌, ◌++◌, length, length-append, length-set, get_or, set, get_or-set_self,
  get_or-set_ne, done, ==_refl, ==_ne, Among,
}
use native.Mathlib.Decide.{ℕ_discrete}
use llc.Jay.Warshall.{Matrix, row}
use llc.Jay.Warshall.Round.{AllSized, AllSized-set, length-row}
use llc.Jay.Digraph.{Walk, index_of, pop_loop}
use llc.Jay.Digraph.Stack.{At, At-range}
use llc.Jay.Digraph.State.{unvisited}
use llc.Jay.Digraph.Edge.{unvisited-set}

pub Among-At :
    (above vertices : List ℕ) (i v : ℕ)
    → Among v above
    → (p : ℕ) × At (above ++ i ∷ vertices) p v × (suc (length vertices) < p)
Among-At [] vertices i v m = elim m [ ]
Among-At (x ∷ above) vertices i v (inl e) =
    let size = length-append above (i ∷ vertices) in
    (suc (length (above ++ i ∷ vertices)), inl (refl, e), omega arith)
Among-At (x ∷ above) vertices i v (inr m) =
    let (p, at, lt) = Among-At above vertices i v m in (p, inr at, lt)

pub At-Among :
    (above vertices : List ℕ) (i p v : ℕ)
    → At (above ++ i ∷ vertices) p v
    → length vertices < p
    → Among v above ⊎ (i ≡ v)
At-Among [] vertices i p v (inl (e, same)) lt = inr same
At-Among [] vertices i p v (inr at) lt =
    let (lo, hi) = At-range vertices p v at in absurd (omega arith)
At-Among (x ∷ above) vertices i p v (inl (e, same)) lt = inl (inl same)
At-Among (x ∷ above) vertices i p v (inr at) lt = elim (At-Among above vertices i p v at lt) [
  | inl m ↦ inl (inr m)
  | inr same ↦ inr same
]

-- What the loop leaves.
pub record Popped (inf w i : ℕ) (above vertices index : List ℕ) (f : Matrix) (out : Walk)
    : Type 0 where
  pub stack : out.vertices ≡ vertices
  pub marks : length out.index ≡ length index
  pub rows : length out.f ≡ length f
  pub sized : AllSized w out.f
  pub same_unvisited : unvisited out.index ≡ unvisited index
  pub finished : (v : ℕ) → Among v above ⊎ (i ≡ v) → index_of out v ≡ inf
  pub keeps : (v : ℕ) → get_or index v 0 ≡ inf → index_of out v ≡ inf
  pub index_cases :
      (v : ℕ)
      → (index_of out v ≡ get_or index v 0) ⊎ ((Among v above ⊎ (i ≡ v)) × (index_of out v ≡ inf))
  pub copied : (v : ℕ) → Among v above → row out.f v ≡ row f i
  pub same_rows : (v : ℕ) → row f v ≡ row f i → row out.f v ≡ row f i
  pub row_cases : (v : ℕ) → (row out.f v ≡ row f v) ⊎ (Among v above × (row out.f v ≡ row f i))

-- The vertices have numbers and are visited.
abbrev pub Seen : List ℕ → ℕ → List ℕ → Type 0
Seen index n [] = Unit
Seen index n (x ∷ xs) = (x < n) × (get_or index x 0 ≢ 0) × Seen index n xs

set-seen :
    (index : List ℕ) (x v inf : ℕ)
    → x < length index
    → inf ≢ 0
    → get_or index v 0 ≢ 0
    → get_or (set index x inf) v 0 ≢ 0
set-seen index x v inf lt pos seen = elim (ℕ_discrete x v) [
  | yes same ↦ rw (sym same, get_or-set_self index x inf 0 lt) (pos)
  | no apart ↦ rw (get_or-set_ne index x v inf 0 apart) (seen)
]

Seen-set :
    (index : List ℕ) (n x inf : ℕ) (xs : List ℕ)
    → x < length index
    → inf ≢ 0
    → Seen index n xs
    → Seen (set index x inf) n xs
Seen-set index n x inf [] lt pos seen = tt
Seen-set index n x inf (y ∷ xs) lt pos (y_lt, y_seen, seen) =
    (y_lt, set-seen index x y inf lt pos y_seen, Seen-set index n x inf xs lt pos seen)

set_keeps :
    (index : List ℕ) (x v inf : ℕ)
    → x < length index
    → get_or index v 0 ≡ inf
    → get_or (set index x inf) v 0 ≡ inf
set_keeps index x v inf lt e = elim (ℕ_discrete x v) [
  | yes same ↦ rw (sym same) (get_or-set_self index x inf 0 lt)
  | no apart ↦ get_or-set_ne index x v inf 0 apart ∙ e
]

pub pop_loop-Popped :
    (inf w i : ℕ) (above vertices index : List ℕ) (f : Matrix)
    → inf ≢ 0
    → length index ≡ length f
    → AllSized w f
    → i < length index
    → get_or index i 0 ≢ 0
    → Seen index (length index) above
    → (Among i above → ⊥)
    → (out : Walk) × (pop_loop inf i index (above ++ i ∷ vertices) f ≡ done out)
      × Popped inf w i above vertices index f out
unfolding pop_loop
pop_loop-Popped inf w i [] vertices index f pos size sized lt seen all apart = (
  record { index = set index i inf; vertices = vertices; f = f },
  rw (==_refl i) refl,
  record {
    stack = refl;
    marks = length-set index i inf;
    rows = refl;
    sized = sized;
    same_unvisited = unvisited-set index i inf seen pos;
    finished = λ v m. elim m [
      | inl none ↦ elim none [ ]
      | inr same ↦ rw (sym same) (get_or-set_self index i inf 0 lt)
    ];
    keeps = λ v e. set_keeps index i v inf lt e;
    index_cases = λ v. elim (ℕ_discrete i v) [
      | yes same ↦ inr (inr same, rw (sym same) (get_or-set_self index i inf 0 lt))
      | no ne ↦ inl (get_or-set_ne index i v inf 0 ne)
    ];
    copied = λ v m. elim m [ ];
    same_rows = λ v e. e;
    row_cases = λ v. inl refl;
  },
)
pop_loop-Popped inf w i (x ∷ above) vertices index f pos size sized lt seen (x_lt, x_seen, all)
      apart =
    let ne : i ≢ x = λ e. apart (inl (sym e)) in
    let index' = set index x inf in
    let f' = set f x (row f i) in
    let index_size = length-set index x inf in
    let f_size = length-set f x (row f i) in
    let base : row f' i ≡ row f i = get_or-set_ne f x i (row f i) [] (λ e. ne (sym e)) in
    let (out, e, p) =
      pop_loop-Popped inf w i above vertices index' f' pos (index_size ∙ size ∙ sym f_size)
        (AllSized-set w f x (row f i) sized (length-row w f i sized (omega arith))) (omega arith)
        (set-seen index x i inf x_lt pos seen)
        (rw index_size (Seen-set index (length index) x inf above x_lt pos all))
        (λ m. apart (inr m)) in
    (
      out,
      rw (==_ne i x ne) e,
      record {
        stack = p.stack;
        marks = p.marks ∙ index_size;
        rows = p.rows ∙ f_size;
        sized = p.sized;
        same_unvisited = p.same_unvisited ∙ unvisited-set index x inf x_seen pos;
        finished = λ v m. elim m [
          | inl (inl same) ↦ p.keeps v (rw (sym same) (get_or-set_self index x inf 0 x_lt))
          | inl (inr later) ↦ p.finished v (inl later)
          | inr same ↦ p.finished v (inr same)
        ];
        keeps = λ v e'. p.keeps v (set_keeps index x v inf x_lt e');
        index_cases = λ v. elim (p.index_cases v) [
          | inr (inl m, e') ↦ inr (inl (inr m), e')
          | inr (inr same, e') ↦ inr (inr same, e')
          | inl e' ↦ elim (ℕ_discrete x v) [
            | yes same ↦
                inr (inl (inl same), e' ∙ rw (sym same) (get_or-set_self index x inf 0 x_lt))
            | no ne' ↦ inl (e' ∙ get_or-set_ne index x v inf 0 ne')
          ]
        ];
        copied = λ v m. elim m [
          | inl same ↦
              p.same_rows v
                (rw (sym same) (get_or-set_self f x (row f i) [] (omega arith) ∙ sym base))
              ∙ base
          | inr later ↦ p.copied v later ∙ base
        ];
        same_rows = λ v e'.
            p.same_rows v (elim (ℕ_discrete x v) [
              | yes same ↦ rw (sym same) (get_or-set_self f x (row f i) [] (omega arith) ∙ sym base)
              | no ne' ↦ get_or-set_ne f x v (row f i) [] ne' ∙ e' ∙ sym base
            ])
            ∙ base;
        row_cases = λ v. elim (p.row_cases v) [
          | inr (m, e') ↦ inr (inr m, e' ∙ base)
          | inl e' ↦ elim (ℕ_discrete x v) [
            | yes same ↦
                inr (inl same, e' ∙ rw (sym same) (get_or-set_self f x (row f i) [] (omega arith)))
            | no ne' ↦ inl (e' ∙ get_or-set_ne f x v (row f i) [] ne')
          ]
        ];
      },
    )
