-- ===== src/Jay/Digraph/Step.antt =====
-- A visit of an edge's vertex, and the edge that is taken behind it.
use llc.Common.{ℕ, suc, ◌<◌, ◌≡◌, ◌≢◌, ◌⊎◌, inl, inr, refl, sym, ◌∙◌, arith}
use llc.Common.{true, List, [], ◌∷◌, ◌++◌, length, get_or, Among}
use llc.Jay.Warshall.{Matrix}
use llc.Jay.Warshall.Round.{related, related_cong}
use llc.Jay.Digraph.{Walk, index_of, take_edge}
use llc.Jay.Digraph.Stack.{At, At-above}
use llc.Jay.Digraph.State.{
  unvisited, Within, Within-same, infinity, IsWalk, Taken, Left, Same, Visited,
}
use llc.Jay.Digraph.Edge.{Takes, take_edge-Takes, same_stack, unfinished, or_right}

module _ (r : List (List ℕ)) (start : Matrix) (n w : ℕ) where
  -- The visit of `i` has the edges `edges` before it. `begun` is the state in which it was called.
  pub record Going (begun : Walk) (i : ℕ) (edges : List ℕ) (st : Walk) : Type 0 where
    pub walk : IsWalk r start n w st
    pub above : List ℕ
    pub pushed : st.vertices ≡ above ++ i ∷ begun.vertices
    pub same : Same r start n w begun st
    pub left :
        (p x : ℕ) → At st.vertices p x → suc (length begun.vertices) < p → Left r start n w st i p x
    pub taken : (k : ℕ) → Among k (get_or r i []) → Among k edges ⊎ Taken r start n w st i k
    pub fewer : unvisited st.index < unvisited begun.index

  -- An edge that was taken stays taken in a visit.
  pub Taken-Visited :
      (st mid : Walk) (j x k : ℕ)
      → Visited r start n w st mid j
      → index_of st x ≢ 0
      → Taken r start n w st x k
      → Taken r start n w mid x k
  Taken-Visited st mid j x k visited seen (inl (finished, within)) =
      let ne : index_of st k ≢ 0 = λ e. omega (arith, e, finished) in
      inl (
        visited.same.index k ne ∙ finished,
        Within-same r start n w st.f mid.f k x (visited.same.f k ne) (visited.same.f x seen) within,
      )
  Taken-Visited st mid j x k visited seen (inr (q, at, le)) = inr (
    q,
    rw visited.pushed (At-above visited.above st.vertices q k at),
    rw (visited.same.index x seen) le,
  )

  module _ (mid : Walk) (ok : IsWalk r start n w mid) (i j : ℕ) (i_lt : i < n) (j_lt : j < n) where
    module _ (j_seen : index_of mid j ≢ 0) (is_edge : Among j (get_or r i [])) where
      module _ (pi : ℕ) (i_at : At mid.vertices pi i) where
        abbrev later : Walk
        later = take_edge i j mid

        pub takes : Takes mid later i j
        takes = take_edge-Takes r start n w mid ok i j i_lt j_lt

        finished : (k : ℕ) → index_of mid k ≡ infinity n → k ≢ i
        finished k e same =
            let lt = unfinished r start n w mid ok i j i_lt j_lt pi i i_at in
            let e' : index_of mid i ≡ infinity n = rw same at e in omega arith

        Taken-other : (x k : ℕ) → x ≢ i → Taken r start n w mid x k → Taken r start n w later x k
        Taken-other x k ne (inl (e, within)) =
            let apart = finished k e in
            inl (
              takes.others k apart ∙ e,
              Within-same r start n w mid.f later.f k x (takes.other_rows k apart)
                  (takes.other_rows x ne) within,
            )
        Taken-other x k ne (inr (q, at, le)) = inr (
          q,
          rw (same_stack r start n w mid ok i j i_lt j_lt j_seen is_edge pi i_at) at,
          rw (takes.others x ne) le,
        )

        -- What is in the row of a vertex that is not `i` is in the new row of `i`, if it was in the
        -- old one or in that of `j`.
        Within-self : (x : ℕ) → x ≢ i → Within mid.f x i ⊎ Within mid.f x j → Within later.f x i
        Within-self x ne from b on =
            let on' : related mid.f x b ≡ true =
              sym (related_cong mid.f later.f x b (takes.other_rows x ne)) ∙ on in
            takes.joined b ∙ elim from [
              | inl own ↦ rw (own b on') refl
              | inr other ↦ or_right (related mid.f i b) (other b on')
            ]

        pub Taken-self : (k : ℕ) → Taken r start n w mid i k → Taken r start n w later i k
        Taken-self k (inl (e, within)) =
            let apart = finished k e in
            inl (takes.others k apart ∙ e, Within-self k apart (inl within))
        Taken-self k (inr (q, at, le)) =
            let low = takes.low in
            inr (
              q,
              rw (same_stack r start n w mid ok i j i_lt j_lt j_seen is_edge pi i_at) at,
              omega arith,
            )

        pub Taken-new : Taken r start n w later i j
        Taken-new = elim (ok.status j j_lt) [
          | inl white ↦ absurd (j_seen white)
          | inr (inl e) ↦
              let apart = finished j e in
              inl (takes.others j apart ∙ e, Within-self j apart (inr (λ b on. on)))
          | inr (inr (q, at)) ↦
              let low = takes.low_edge in
              let (lt, lo, hi) = ok.on_stack q j at in
              inr (
                q,
                rw (same_stack r start n w mid ok i j i_lt j_lt j_seen is_edge pi i_at) at,
                omega arith,
              )
        ]

        -- A vertex that is left below the visit of `i` or of `j` is left below that of `i`.
        pub Left-taken :
            (p x : ℕ)
            → x ≢ i
            → Left r start n w mid i p x ⊎ Left r start n w mid j p x
            → Left r start n w later i p x
        Left-taken p x ne (inl l) =
            let low = l.low in
            let lower = l.lower in
            let less = takes.low in
            let same = takes.others x ne in
            record {
              taken = λ k m. Taken-other x k ne (l.taken k m);
              low = omega arith;
              within = Within-self x ne (inl l.within);
              lower = omega arith;
            }
        Left-taken p x ne (inr l) =
            let low = l.low in
            let lower = l.lower in
            let less = takes.low_edge in
            let same = takes.others x ne in
            record {
              taken = λ k m. Taken-other x k ne (l.taken k m);
              low = omega arith;
              within = Within-self x ne (inr l.within);
              lower = omega arith;
            }
