-- ===== src/Jay/Digraph/Take.antt =====
-- What traverse keeps to while it goes over the edges of a vertex.
use llc.Common.{ℕ, suc, ◌<◌, ◌≡◌, ◌≢◌, ◌⊎◌, inl, inr, refl, sym, ap, subst, ◌∙◌, arith}
use llc.Common.{List, [], ◌∷◌, ◌++◌, append_assoc, length, get_or, Among}
use native.Mathlib.Decide.{dec_le}
use llc.Jay.Warshall.{Matrix}
use llc.Jay.Digraph.{Walk, index_of, take_edge}
use llc.Jay.Digraph.Stack.{At, At-above, At-below}
use llc.Jay.Digraph.State.{Within-same, Taken, Left, Same, Same-trans, Visited}
use llc.Jay.Digraph.Edge.{take_edge-IsWalk, same_stack, unvisited_same}
use llc.Jay.Digraph.Step.{Going, Taken-Visited, takes, Taken-self, Taken-new, Left-taken}

module _ (r : List (List ℕ)) (start : Matrix) (n w : ℕ) where
  module _ (begun st mid : Walk) (i j : ℕ) (edges : List ℕ) where
    module _ (g : Going r start n w begun i (j ∷ edges) st) (v : Visited r start n w st mid j) where
      place : At st.vertices (suc (length begun.vertices)) i
      place =
          subst (λ s. At s (suc (length begun.vertices)) i) (sym g.pushed)
            (At-above g.above (i ∷ begun.vertices) _ i (inl (refl, refl)))

      i_seen : index_of st i ≢ 0
      i_seen e = let (lt, lo, hi) = g.walk.on_stack _ i place in omega arith

      mid_place : At mid.vertices (suc (length begun.vertices)) i
      mid_place =
          subst (λ s. At s (suc (length begun.vertices)) i) (sym v.pushed)
            (At-above v.above st.vertices _ i place)

      Left-mid :
          (p x : ℕ)
          → At mid.vertices p x
          → suc (length begun.vertices) < p
          → Left r start n w mid i p x ⊎ Left r start n w mid j p x
      Left-mid p x at above = elim (dec_le p (length st.vertices)) [
        | no new ↦ inr (v.left p x at (omega arith))
        | yes old ↦
            let at' : At st.vertices p x =
              At-below v.above st.vertices p x (subst (λ s. At s p x) v.pushed at) old in
            let l : Left r start n w st i p x = g.left p x at' above in
            let (lt, lo, hi) = g.walk.on_stack p x at' in
            let x_seen : index_of st x ≢ 0 = λ e. omega arith in
            let low = l.low in
            let lower = l.lower in
            let same_x = v.same.index x x_seen in
            let same_i = v.same.index i i_seen in
            inl (record {
              taken = λ k m. Taken-Visited r start n w st mid j x k v x_seen (l.taken k m);
              low = omega arith;
              within =
                  Within-same r start n w st.f mid.f x i (v.same.f x x_seen) (v.same.f i i_seen)
                    l.within;
              lower = omega arith;
            })
      ]

      module _ (i_lt : i < n) (j_lt : j < n) (is_edge : Among j (get_or r i [])) where
        abbrev later : Walk
        later = take_edge i j mid

        stack : later.vertices ≡ mid.vertices
        stack = same_stack r start n w mid v.walk i j i_lt j_lt v.marked is_edge _ mid_place

        Same-later : index_of begun i ≡ 0 → Same r start n w begun later
        Same-later white =
            let whole = Same-trans r start n w begun st mid g.same v.same in
            let t = takes r start n w mid v.walk i j i_lt j_lt v.marked is_edge _ mid_place in
            record {
              index = λ x ne. t.others x (λ same. ne (rw same white)) ∙ whole.index x ne;
              f = λ x ne. t.other_rows x (λ same. ne (rw same white)) ∙ whole.f x ne;
            }

        Taken-later :
            (k : ℕ) → Among k (get_or r i []) → Among k edges ⊎ Taken r start n w later i k
        Taken-later k m = elim (g.taken k m) [
          | inl (inl e) ↦ inr (
              subst (λ x. Taken r start n w later i x) e
                (Taken-new r start n w mid v.walk i j i_lt j_lt v.marked is_edge _ mid_place))
          | inl (inr later_edge) ↦ inl later_edge
          | inr t ↦ inr (
              Taken-self r start n w mid v.walk i j i_lt j_lt v.marked is_edge _ mid_place k
                (Taken-Visited r start n w st mid j i k v i_seen t))
        ]

        left_later :
            (p x : ℕ)
            → At later.vertices p x
            → suc (length begun.vertices) < p
            → Left r start n w later i p x
        left_later p x at above =
            let at' : At mid.vertices p x = subst (λ s. At s p x) stack at in
            Left-taken r start n w mid v.walk i j i_lt j_lt v.marked is_edge _ mid_place p x
              (λ same.
                let e =
                  v.walk.one_each p (suc (length begun.vertices)) i (rw same at at') mid_place in
                omega arith)
              (Left-mid p x at' above)

        -- The edge is taken, and the others are left.
        pub Going-taken : index_of begun i ≡ 0 → Going r start n w begun i edges later
        Going-taken white =
            let a =
              unvisited_same r start n w mid v.walk i j i_lt j_lt v.marked is_edge _ mid_place in
            let b = v.fewer in
            let c = g.fewer in
            record {
              walk =
                  take_edge-IsWalk r start n w mid v.walk i j i_lt j_lt v.marked is_edge _
                    mid_place;
              above = v.above ++ g.above;
              pushed =
                  stack
                  ∙ v.pushed
                  ∙ ap (λ s. v.above ++ s) g.pushed
                  ∙ sym (append_assoc v.above g.above (i ∷ begun.vertices));
              same = Same-later white;
              left = left_later;
              taken = Taken-later;
              fewer = omega arith;
            }
