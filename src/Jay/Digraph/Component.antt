-- ===== src/Jay/Digraph/Component.antt =====
-- The end of traverse: a vertex is left on the stack, or it is taken off with those above it, which
-- all lead to it and gather the same bits.
use llc.Common.{ℕ, zero, suc, ◌≤◌, ◌<◌, ◌≡◌, ◌≢◌, ◌⊎◌, inl, inr, refl, sym, ap, subst, ◌∙◌, arith}
use llc.Common.{true, List, [], ◌∷◌, ◌++◌, append_assoc, length, length-append, get_or, Among}
use native.Mathlib.Decide.{dec_le, dec_lt}
use llc.Jay.Warshall.{Matrix, row}
use llc.Jay.Warshall.Round.{related, related_cong}
use llc.Jay.Digraph.{Walk, index_of}
use llc.Jay.Digraph.Stack.{At, At-range, At-above, At-below, At-middle}
use llc.Jay.Digraph.State.{
  Reaches, here, edge, Reaches-trans, Gathers, Within, infinity, IsWalk, Taken, Left, Visited,
}
use llc.Jay.Digraph.Step.{Going}
use llc.Jay.Digraph.Pop.{Popped, At-Among, Among-At}

same_bit :
    (f g : Matrix) (v u b : ℕ) → row f v ≡ row g u → related g u b ≡ true → related f v b ≡ true
unfolding related
same_bit f g v u b e on = rw e on

module _ (r : List (List ℕ)) (start : Matrix) (n w : ℕ) where
  -- `i` has been visited from `begun` on, and all its edges have been taken.
  module _ (begun : Walk) (i : ℕ) (st : Walk) (g : Going r start n w begun i [] st) where
    abbrev height : ℕ
    height = suc (length begun.vertices)

    At-st : (p v : ℕ) → At st.vertices p v → At (g.above ++ i ∷ begun.vertices) p v
    At-st p v at = subst (λ s. At s p v) g.pushed at

    pub place : At st.vertices height i
    place =
        subst (λ s. At s height i) (sym g.pushed)
          (At-above g.above (i ∷ begun.vertices) _ i (inl (refl, refl)))

    edges-Taken : (k : ℕ) → Among k (get_or r i []) → Taken r start n w st i k
    edges-Taken k m = elim (g.taken k m) [ inl none ↦ elim none [ ] | inr t ↦ t ]

    -- The vertices from `i` on.
    left : (p v : ℕ) → At st.vertices p v → height < p → Left r start n w st i p v
    left p v at lt = g.left p v at lt

    i_at : (p v : ℕ) → At st.vertices p v → p ≡ height → i ≡ v
    i_at p v at e = At-middle g.above begun.vertices i v (rw e at (At-st p v at))

    taken :
        (p v k : ℕ)
        → At st.vertices p v
        → height ≤ p
        → Among k (get_or r v [])
        → Taken r start n w st v k
    taken p v k at le m = elim (dec_le p height) [
      | no above ↦ (left p v at (omega arith)).taken k m
      | yes low ↦
          let same = i_at p v at (omega arith) in
          subst (λ x. Taken r start n w st x k) same
            (edges-Taken k (subst (λ x. Among k (get_or r x [])) (sym same) m))
    ]

    low : (p v : ℕ) → At st.vertices p v → height ≤ p → index_of st i ≤ index_of st v
    low p v at le = elim (dec_le p height) [
      | no above ↦ (left p v at (omega arith)).low
      | yes eq ↦ let same = i_at p v at (omega arith) in rw same (omega arith)
    ]

    within : (p v : ℕ) → At st.vertices p v → height ≤ p → Within st.f v i
    within p v at le = elim (dec_le p height) [
      | no above ↦ (left p v at (omega arith)).within
      | yes eq ↦ let same = i_at p v at (omega arith) in rw same (λ b on. on)
    ]

    -- Where the INDEX of `i` is still its height, the vertices from `i` on are a component.
    module _ (root : index_of st i ≡ height) where
      gather :
          (p v k b : ℕ)
          → At st.vertices p v
          → height ≤ p
          → Reaches r v k
          → related start k b ≡ true
          → related st.f i b ≡ true
      gather p v k b at le here on = within p v at le b (g.walk.keeps v b on)
      gather p v k b at le (edge {k = m} is_edge path) on = elim (taken p v m at le is_edge) [
        | inl (finished, into) ↦
            within p v at le b (into b (g.walk.full m b finished (k, path, on)))
        | inr (q, m_at, above) ↦ let lo = low p v at le in gather q m k b m_at (omega arith) path on
      ]

      leads_back : (bound p v : ℕ) → p ≤ bound → At st.vertices p v → height ≤ p → Reaches r v i
      leads_back zero p v below at le = absurd (omega arith)
      leads_back (suc bound) p v below at le = elim (dec_le p height) [
        | yes eq ↦ let same = i_at p v at (omega arith) in rw same here
        | no above ↦
            let lower = (left p v at (omega arith)).lower in
            let lo = low p v at le in
            let (u, u_at, path) = g.walk.back p v at in
            Reaches-trans r v u i path
              (leads_back bound (index_of st v) u (omega arith) u_at (omega arith))
      ]

      module _ (out : Walk) where
        module _ (pop : Popped (infinity n) w i g.above begun.vertices st.index st.f out) where
          -- A vertex that is taken off.
          abbrev Off : ℕ → Type 0
          Off v = Among v g.above ⊎ (i ≡ v)

          Off-at : (v : ℕ) → Off v → (p : ℕ) × At st.vertices p v × (height ≤ p)
          Off-at v (inl m) =
              let (p, at, lt) = Among-At g.above begun.vertices i v m in
              (p, subst (λ s. At s p v) (sym g.pushed) at, omega arith)
          Off-at v (inr same) = (height, rw (sym same) place, omega arith)

          at-Off : (p v : ℕ) → At st.vertices p v → height ≤ p → Off v
          at-Off p v at le = At-Among g.above begun.vertices i p v (At-st p v at) (omega arith)

          At-old : (p v : ℕ) → At begun.vertices p v → At st.vertices p v
          At-old p v at =
              subst (λ s. At s p v) (sym g.pushed)
                (At-above g.above (i ∷ begun.vertices) p v (inr at))

          At-kept : (p v : ℕ) → At st.vertices p v → p < height → At begun.vertices p v
          At-kept p v at lt =
              elim (At-below g.above (i ∷ begun.vertices) p v (At-st p v at) (omega arith)) [
                | inl (e, same) ↦ absurd (omega arith)
                | inr at' ↦ at'
              ]

          kept_index : (p v : ℕ) → At begun.vertices p v → index_of out v ≡ index_of st v
          kept_index p v at = elim (pop.index_cases v) [
            | inl e ↦ e
            | inr (off, e) ↦
                let (q, q_at, le) = Off-at v off in
                let (lo, hi) = At-range begun.vertices p v at in
                let same = g.walk.one_each p q v (At-old p v at) q_at in absurd (omega arith)
          ]

          out_size : length out.index ≡ n
          out_size = pop.marks ∙ g.walk.marks

          -- A vertex that is finished behind the loop was taken off or finished before.
          newly : (v : ℕ) → index_of out v ≡ infinity n → Off v ⊎ (index_of st v ≡ infinity n)
          newly v e = elim (pop.index_cases v) [
            | inl same ↦ inr (sym same ∙ e)
            | inr (off, e') ↦ inl off
          ]

          closed_out :
              (v k : ℕ)
              → index_of out v ≡ infinity n
              → Among k (get_or r v [])
              → index_of out k ≡ infinity n
          closed_out v k e m = elim (newly v e) [
            | inr old ↦ pop.keeps k (g.walk.closed v k old m)
            | inl off ↦
                let (p, at, le) = Off-at v off in
                elim (taken p v k at le m) [
                  | inl (finished, into) ↦ pop.keeps k finished
                  | inr (q, k_at, above) ↦
                      let lo = low p v at le in pop.finished k (at-Off q k k_at (omega arith))
                ]
          ]

          Off-row : (v : ℕ) → Off v → row out.f v ≡ row st.f i
          Off-row v (inl m) = pop.copied v m
          Off-row v (inr same) = pop.same_rows v (rw same refl)

          full_out :
              (v b : ℕ)
              → index_of out v ≡ infinity n
              → Gathers r start v b
              → related out.f v b ≡ true
          full_out v b e (k, path, on) = elim (newly v e) [
            | inl off ↦
                let (p, at, le) = Off-at v off in
                same_bit out.f st.f v i b (Off-row v off) (gather p v k b at le path on)
            | inr old ↦
                let bit = g.walk.full v b old (k, path, on) in
                elim (pop.row_cases v) [
                  | inl same ↦ related_cong st.f out.f v b same ∙ bit
                  | inr (m, same) ↦
                      let (p, at, le) = Off-at v (inl m) in
                      same_bit out.f st.f v i b same (gather p v k b at le path on)
                ]
          ]

          sound_out : (v b : ℕ) → related out.f v b ≡ true → Gathers r start v b
          sound_out v b on = elim (pop.row_cases v) [
            | inl same ↦ g.walk.sound v b (sym (related_cong st.f out.f v b same) ∙ on)
            | inr (m, same) ↦
                let (p, at, le) = Off-at v (inl m) in
                let (k, path, bit) = g.walk.sound i b (same_bit st.f out.f i v b (sym same) on) in
                (k, Reaches-trans r v i k (leads_back p p v (omega arith) at le) path, bit)
          ]

          keeps_out : (v b : ℕ) → related start v b ≡ true → related out.f v b ≡ true
          keeps_out v b on = elim (pop.row_cases v) [
            | inl same ↦ related_cong st.f out.f v b same ∙ g.walk.keeps v b on
            | inr (m, same) ↦
                let (p, at, le) = Off-at v (inl m) in
                same_bit out.f st.f v i b same (within p v at le b (g.walk.keeps v b on))
          ]

          status_out :
              (v : ℕ)
              → v < n
              → (index_of out v ≡ 0)
                ⊎ ((index_of out v ≡ infinity n) ⊎ ((p : ℕ) × At begun.vertices p v))
          status_out v lt = elim (pop.index_cases v) [
            | inr (off, e) ↦ inr (inl e)
            | inl same ↦ elim (g.walk.status v lt) [
              | inl white ↦ inl (same ∙ white)
              | inr (inl finished) ↦ inr (inl (same ∙ finished))
              | inr (inr (p, at)) ↦ elim (dec_lt p height) [
                | yes kept ↦ inr (inr (p, At-kept p v at kept))
                | no off ↦ inr (inl (pop.finished v (at-Off p v at (omega arith))))
              ]
            ]
          ]

          stack_out :
              (p v : ℕ)
              → At begun.vertices p v
              → (v < n) × (1 ≤ index_of out v) × (index_of out v ≤ p)
          stack_out p v at = rw (kept_index p v at) (g.walk.on_stack p v (At-old p v at))

          back_out :
              (p v : ℕ)
              → At begun.vertices p v
              → (u : ℕ) × At begun.vertices (index_of out v) u × Reaches r v u
          back_out p v at =
              let (u, u_at, path) = g.walk.back p v (At-old p v at) in
              let (lt, lo, hi) = g.walk.on_stack p v (At-old p v at) in
              let (lo', hi') = At-range begun.vertices p v at in
              rw (kept_index p v at) (u, At-kept (index_of st v) u u_at (omega arith), path)

          out-IsWalk : IsWalk r start n w out
          out-IsWalk = record {
            marks = out_size;
            rows = pop.rows ∙ g.walk.rows;
            sized = pop.sized;
            room =
                let a = pop.same_unvisited in
                let b = g.walk.room in
                let c = ap length g.pushed in
                let d = ap length pop.stack in
                let e = length-append g.above (i ∷ begun.vertices) in omega arith;
            one_each =
                rw pop.stack (λ p q v a b. g.walk.one_each p q v (At-old p v a) (At-old q v b));
            status = rw pop.stack status_out;
            on_stack = rw pop.stack stack_out;
            back = rw pop.stack back_out;
            closed = closed_out;
            full = full_out;
            sound = sound_out;
            keeps = keeps_out;
          }

          -- A vertex that had been visited before is not taken off.
          not-Off : IsWalk r start n w begun → (v : ℕ) → index_of begun v ≢ 0 → Off v → ⊥
          not-Off walk v seen off =
              let (p, at, le) = Off-at v off in
              let (lt, lo, hi) = g.walk.on_stack p v at in
              let (lo', hi') = At-range st.vertices p v at in
              let room = g.walk.room in
              let same = g.same.index v seen in
              elim (walk.status v lt) [
                | inl white ↦ seen white
                | inr (inl finished) ↦ absurd (omega arith)
                | inr (inr (q, q_at)) ↦
                    let (a, b) = At-range begun.vertices q v q_at in
                    let eq = g.walk.one_each q p v (At-old q v q_at) at in absurd (omega arith)
              ]

          pub off-Visited : IsWalk r start n w begun → i < n → Visited r start n w begun out i
          off-Visited walk i_lt = record {
            walk = out-IsWalk;
            above = [];
            pushed = pop.stack;
            same = record {
              index = λ v seen. elim (pop.index_cases v) [
                | inl same ↦ same ∙ g.same.index v seen
                | inr (off, e) ↦ absurd (not-Off walk v seen off)
              ];
              f = λ v seen. elim (pop.row_cases v) [
                | inl same ↦ same ∙ g.same.f v seen
                | inr (m, e) ↦ absurd (not-Off walk v seen (inl m))
              ];
            };
            left = λ p x at lt.
                let (lo, hi) = At-range begun.vertices p x (subst (λ s. At s p x) pop.stack at) in
                absurd (omega arith);
            marked = λ e. let off = pop.finished i (inr refl) in omega arith;
            fewer = let a = pop.same_unvisited in let b = g.fewer in omega arith;
          }

    -- Otherwise the vertex stays on the stack.
    pub stay-Visited : index_of st i ≢ height → Visited r start n w begun st i
    stay-Visited not_root =
        let (lt, lo, hi) = g.walk.on_stack height i place in
        record {
          walk = g.walk;
          above = g.above ++ i ∷ [];
          pushed = g.pushed ∙ sym (append_assoc g.above (i ∷ []) begun.vertices);
          same = g.same;
          left = λ p x at above. elim (dec_le p height) [
            | no higher ↦ left p x at (omega arith)
            | yes eq ↦
                let same = i_at p x at (omega arith) in
                rw (sym same) (record {
                  taken = edges-Taken;
                  low = omega arith;
                  within = λ b on. on;
                  lower = omega arith;
                })
          ];
          marked = λ e. omega arith;
          fewer = let a = g.fewer in omega arith;
        }
