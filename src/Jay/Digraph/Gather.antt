-- ===== src/Jay/Digraph/Gather.antt =====
-- digraph gathers, for each vertex, the bits of the vertices that it leads to.
use llc.Common.{
  ℕ, zero, suc, ◌+◌, ◌≤◌, ◌<◌, ◌≡◌, ◌≢◌, ◌↔◌, ◌⊎◌, inl, inr, refl, ap, subst, ◌∙◌, arith,
}
use llc.Common.{
  Bool, true, false, ◌&&◌, List, [], ◌∷◌, length, length-replicate, get_or, get_or_out,
  get_or-replicate, replicate, Run, done, ==_ne, le→not_ltb, ◌==◌, if◌then◌else◌, Among,
}
use native.Mathlib.Decide.{ℕ_discrete, dec_lt}
use llc.Jay.Grammar.{maxshort}
use llc.Jay.Warshall.{Matrix}
use llc.Jay.Warshall.Round.{related, AllSized}
use llc.Jay.Digraph.{Walk, index_of, not_null, traverse, vertex_loop, digraph}
use llc.Jay.Digraph.Stack.{At}
use llc.Jay.Digraph.State.{Reaches, here, edge, Gathers, unvisited, infinity, IsWalk, Visited}
use llc.Jay.Digraph.Visit.{traverse-Visited}

unvisited-replicate : (n : ℕ) → unvisited (replicate n 0) ≡ n
unfolding unvisited
unvisited-replicate zero = refl
unvisited-replicate (suc n) = ap suc (unvisited-replicate n)

edges_cases : (edges : List ℕ) → (edges ≡ []) ⊎ (not_null edges ≡ true)
edges_cases [] = inl refl
edges_cases (j ∷ edges) = inr refl

bottom : (vertices : List ℕ) → (vertices ≡ []) ⊎ ((v : ℕ) × At vertices 1 v)
bottom [] = inl refl
bottom (x ∷ []) = inr (x, inl (refl, refl))
bottom (x ∷ y ∷ vertices) = elim (bottom (y ∷ vertices)) [
  | inl none ↦ absurd cc
  | inr (v, at) ↦ inr (v, inr at)
]

and_false : (b : Bool) → (b && false) ≡ false
and_false true = refl
and_false false = refl

module _ (r : List (List ℕ)) (start : Matrix) (n w : ℕ) where
  module _ (edges_in : (i j : ℕ) → Among j (get_or r i []) → j < n) where
    -- A visit from an empty stack leaves it empty: its lowest vertex would have an INDEX below 1.
    empty_again :
        (st later : Walk) (i : ℕ)
        → st.vertices ≡ []
        → Visited r start n w st later i
        → later.vertices ≡ []
    empty_again st later i empty v = elim (bottom later.vertices) [
      | inl nothing ↦ nothing
      | inr (x, at) ↦
          let size = ap length empty in
          let lower = (v.left 1 x at (omega arith)).lower in
          let (lt, lo, hi) = v.walk.on_stack 1 x at in absurd (omega arith)
    ]

    -- The vertices before `i` that have edges are finished.
    abbrev Before : Walk → ℕ → Type 0
    Before st i = (v : ℕ) → v < i → (get_or r v [] ≡ []) ⊎ (index_of st v ≡ infinity n)

    finished_at :
        (st : Walk) (i : ℕ)
        → IsWalk r start n w st
        → st.vertices ≡ []
        → i < n
        → index_of st i ≢ 0
        → index_of st i ≡ infinity n
    finished_at st i ok empty lt seen = elim (ok.status i lt) [
      | inl white ↦ absurd (seen white)
      | inr (inl finished) ↦ finished
      | inr (inr (p, at)) ↦ elim (subst (λ s. At s p i) empty at) [ ]
    ]

    up_to :
        (st : Walk) (i : ℕ)
        → Before st i
        → (get_or r i [] ≡ []) ⊎ (index_of st i ≡ infinity n)
        → Before st (i + 1)
    up_to st i before now v lt = elim (ℕ_discrete v i) [
      | yes same ↦ rw same now
      | no ne ↦ before v (omega arith)
    ]

    abbrev turn : ℕ → Walk → Run Walk
    turn i st =
        if index_of st i == 0 && not_null (get_or r i [])
        then traverse r (infinity n) (n + 1) i st
        else done st

    step :
        (i : ℕ) (st : Walk)
        → IsWalk r start n w st
        → st.vertices ≡ []
        → i < n
        → Before st i
        → (later : Walk) × (turn i st ≡ done later)
          × IsWalk r start n w later
          × (later.vertices ≡ [])
          × Before later (i + 1)
    step i st ok empty lt before = elim (edges_cases (get_or r i [])) [
      | inl null ↦ (
        st,
        rw (null, and_false (index_of st i == 0)) refl,
        ok,
        empty,
        up_to st i before (inl null),
      )
      | inr some_edge ↦ elim (ℕ_discrete (index_of st i) 0) [
        | no seen ↦ (
          st,
          rw (==_ne (index_of st i) 0 seen) refl,
          ok,
          empty,
          up_to st i before (inr (finished_at st i ok empty lt seen)),
        )
        | yes white ↦
            let room = ok.room in
            let (later, e, visited) =
              traverse-Visited r start n w edges_in (n + 1) i st ok lt white (omega arith) in
            let empty' = empty_again st later i empty visited in
            (
              later,
              rw (white, some_edge) e,
              visited.walk,
              empty',
              up_to later i
                  (λ v v_lt. elim (before v v_lt) [
                    | inl null ↦ inl null
                    | inr finished ↦ inr (visited.same.index v (λ z. omega arith) ∙ finished)
                  ])
                  (inr (finished_at later i visited.walk empty' lt visited.marked)),
            )
      ]
    ]

    vertex_loop_cases :
        (left i : ℕ) (st : Walk)
        → IsWalk r start n w st
        → st.vertices ≡ []
        → i + left ≡ n
        → Before st i
        → (later : Walk) × (vertex_loop r (infinity n) (n + 1) left i st ≡ done later)
          × IsWalk r start n w later
          × Before later n
    unfolding vertex_loop
    vertex_loop_cases zero i st ok empty e before = (st, refl, ok, λ v lt. before v (omega arith))
    vertex_loop_cases (suc left) i st ok empty e before =
        let (later, e', ok', empty', before') = step i st ok empty (omega arith) before in
        let (last, e'', ok'', before'') =
          vertex_loop_cases left (i + 1) later ok' empty' (omega arith) before' in
        (last, rw e' e'', ok'', before'')

    begun-IsWalk :
        length start ≡ n
        → AllSized w start
        → IsWalk r start n w (record { index = replicate n 0; vertices = []; f = start })
    begun-IsWalk size sized = record {
      marks = length-replicate n 0;
      rows = size;
      sized = sized;
      room = omega (arith, unvisited-replicate n);
      one_each = λ p q v at at'. elim at [ ];
      status = λ v lt. inl (get_or-replicate {A = ℕ} n v 0);
      on_stack = λ p v at. elim at [ ];
      back = λ p v at. elim at [ ];
      closed = λ v k e m. let z = get_or-replicate {A = ℕ} n v 0 in absurd (omega arith);
      full = λ v b e gathers. let z = get_or-replicate {A = ℕ} n v 0 in absurd (omega arith);
      sound = λ v b on. (v, here, on);
      keeps = λ v b on. on;
    }

    -- A vertex with no edges gathers its own bits.
    alone :
        (v k b : ℕ)
        → get_or r v [] ≡ []
        → Reaches r v k
        → related start k b ≡ true
        → related start v b ≡ true
    alone v k b null here on = on
    alone v k b null (edge {k = m} is_edge path) on =
        elim (subst (λ xs. Among m xs) null is_edge) [ ]

    -- On a relation between `n` vertices, where n + 2 is a short, and rows of one length for them, digraph
    -- ends with such rows, and a bit is in the row that it leaves for a vertex exactly when it was in
    -- the row of a vertex to which the edges lead from there, in any number of steps, none included.
    pub digraph-Gathers :
        n + 2 ≤ maxshort
        → length r ≡ n
        → length start ≡ n
        → AllSized w start
        → (f : Matrix) × (digraph r n start ≡ done f)
          × (length f ≡ n)
          × AllSized w f
          × ((v b : ℕ) → (related f v b ≡ true) ↔ Gathers r start v b)
    unfolding digraph
    digraph-Gathers short r_size size sized =
        let (later, e, ok, before) =
          vertex_loop_cases n 0 _ (begun-IsWalk size sized) refl (omega arith)
            (λ v lt. absurd (omega arith)) in
        (
          later.f,
          rw (le→not_ltb (n + 2) maxshort short, e) refl,
          ok.rows,
          ok.sized,
          λ v b. (
            ok.sound v b,
            λ (k, path, on). elim (dec_lt v n) [
              | no out ↦ ok.keeps v b (alone v k b (get_or_out r v [] (omega arith)) path on)
              | yes lt ↦ elim (before v lt) [
                | inl null ↦ ok.keeps v b (alone v k b null path on)
                | inr finished ↦ ok.full v b finished (k, path, on)
              ]
            ],
          ),
        )
