-- ===== src/Jay/Digraph/State.antt =====
-- What holds of the tables of digraph whenever traverse is called and returns.
use llc.Common.{ℕ, zero, suc, ◌+◌, ◌≤◌, ◌<◌, ◌≡◌, ◌≢◌, ◌⊎◌, sym, ◌∙◌}
use llc.Common.{true, List, [], ◌∷◌, ◌++◌, length, get_or, Among}
use llc.Jay.Warshall.{Matrix, row}
use llc.Jay.Warshall.Round.{related, related_cong, AllSized}
use llc.Jay.Digraph.{Walk, index_of}
use llc.Jay.Digraph.Stack.{At, OneEach}

-- Vertex `i` leads to vertex `j`.
pub data Reaches (r : List (List ℕ)) : ℕ → ℕ → Type 0 where
  here : {i : ℕ} → Reaches r i i
  edge : {i k j : ℕ} → Among k (get_or r i []) → Reaches r k j → Reaches r i j

pub Reaches-trans : (r : List (List ℕ)) (i j k : ℕ) → Reaches r i j → Reaches r j k → Reaches r i k
Reaches-trans r i j k here p = p
Reaches-trans r i j k (edge m q) p = edge m (Reaches-trans r _ j k q p)

-- Bit `b` is in the row of a vertex that `i` leads to.
abbrev pub Gathers : List (List ℕ) → Matrix → ℕ → ℕ → Type 0
Gathers r start i b = (k : ℕ) × Reaches r i k × (related start k b ≡ true)

-- The vertices that have not been visited.
unfoldable pub unvisited : List ℕ → ℕ
unvisited [] = 0
unvisited (zero ∷ index) = suc (unvisited index)
unvisited (suc x ∷ index) = unvisited index

-- The row of `j` is part of the row of `i`.
abbrev pub Within : Matrix → ℕ → ℕ → Type 0
Within f j i = (b : ℕ) → related f j b ≡ true → related f i b ≡ true

abbrev pub infinity : ℕ → ℕ
infinity n = n + 2

module _ (r : List (List ℕ)) (start : Matrix) (n w : ℕ) where
  -- A vertex is unvisited, finished or on the stack; the row of one that is finished is what it is
  -- to gather, and one on the stack leads to the vertex at its INDEX.
  pub record IsWalk (st : Walk) : Type 0 where
    pub marks : length st.index ≡ n
    pub rows : length st.f ≡ n
    pub sized : AllSized w st.f
    pub room : unvisited st.index + length st.vertices ≤ n
    pub one_each : OneEach st.vertices
    pub status :
        (v : ℕ)
        → v < n
        → (index_of st v ≡ 0) ⊎ ((index_of st v ≡ infinity n) ⊎ ((p : ℕ) × At st.vertices p v))
    pub on_stack :
        (p v : ℕ) → At st.vertices p v → (v < n) × (1 ≤ index_of st v) × (index_of st v ≤ p)
    pub back :
        (p v : ℕ) → At st.vertices p v → (u : ℕ) × At st.vertices (index_of st v) u × Reaches r v u
    pub closed :
        (v k : ℕ)
        → index_of st v ≡ infinity n
        → Among k (get_or r v [])
        → index_of st k ≡ infinity n
    pub full :
        (v b : ℕ) → index_of st v ≡ infinity n → Gathers r start v b → related st.f v b ≡ true
    pub sound : (v b : ℕ) → related st.f v b ≡ true → Gathers r start v b
    pub keeps : (v b : ℕ) → related start v b ≡ true → related st.f v b ≡ true

  -- Edge `k` of `x` has been taken: `k` is finished and its row is in that of `x`, or it is on the
  -- stack, not below the INDEX of `x`.
  abbrev pub Taken : Walk → ℕ → ℕ → Type 0
  Taken st x k =
      ((index_of st k ≡ infinity n) × Within st.f k x)
      ⊎ ((q : ℕ) × At st.vertices q k × (index_of st x ≤ q))

  -- Vertex `x` at place `p` is left on the stack below the visit of `i`.
  pub record Left (st : Walk) (i p x : ℕ) : Type 0 where
    pub taken : (k : ℕ) → Among k (get_or r x []) → Taken st x k
    pub low : index_of st i ≤ index_of st x
    pub within : Within st.f x i
    pub lower : index_of st x < p

  -- The visited vertices are as they were.
  pub record Same (st later : Walk) : Type 0 where
    pub index : (v : ℕ) → index_of st v ≢ 0 → index_of later v ≡ index_of st v
    pub f : (v : ℕ) → index_of st v ≢ 0 → row later.f v ≡ row st.f v

  -- What a visit of `i` makes.
  pub record Visited (st later : Walk) (i : ℕ) : Type 0 where
    pub walk : IsWalk later
    pub above : List ℕ
    pub pushed : later.vertices ≡ above ++ st.vertices
    pub same : Same st later
    pub left : (p x : ℕ) → At later.vertices p x → length st.vertices < p → Left later i p x
    pub marked : index_of later i ≢ 0
    pub fewer : unvisited later.index ≤ unvisited st.index

  pub Same-trans : (a b c : Walk) → Same a b → Same b c → Same a c
  Same-trans a b c ab bc = record {
    index = λ v ne. bc.index v (λ e. ne (sym (ab.index v ne) ∙ e)) ∙ ab.index v ne;
    f = λ v ne. bc.f v (λ e. ne (sym (ab.index v ne) ∙ e)) ∙ ab.f v ne;
  }

  pub Within-same :
      (f g : Matrix) (j i : ℕ) → row g j ≡ row f j → row g i ≡ row f i → Within f j i → Within g j i
  Within-same f g j i ej ei h b on =
      related_cong f g i b ei ∙ h b (sym (related_cong f g j b ej) ∙ on)
