-- ===== src/Jay/Digraph/Visit.antt =====
-- traverse ends, and visits a vertex.
use llc.Common.{ℕ, zero, suc, ◌≤◌, ◌<◌, ◌≡◌, ◌≢◌, ◌⊎◌, inl, inr, refl, sym, ap, subst, ◌∙◌, arith}
use llc.Common.{
  List, [], ◌∷◌, length, length-set, get_or, set, get_or-set_self, get_or-set_ne, Run, done,
  ==_refl, ==_ne, Among,
}
use native.Mathlib.Decide.{ℕ_discrete}
use llc.Jay.Warshall.{Matrix}
use llc.Jay.Digraph.{Walk, index_of, enter, take_edge, visit, edge_loop, pop_loop, finish, traverse}
use llc.Jay.Digraph.Stack.{At, At-range, OneEach-push}
use llc.Jay.Digraph.State.{here, unvisited, infinity, IsWalk, Visited}
use llc.Jay.Digraph.Step.{Going}
use llc.Jay.Digraph.Take.{Going-taken}
use llc.Jay.Digraph.Pop.{Seen, pop_loop-Popped, Among-At}
use llc.Jay.Digraph.Component.{place, off-Visited, stay-Visited}

unvisited-enter :
    (index : List ℕ) (i x : ℕ)
    → i < length index
    → get_or index i 0 ≡ 0
    → unvisited index ≡ suc (unvisited (set index i (suc x)))
unfolding unvisited
unvisited-enter [] i x lt e = absurd (omega arith)
unvisited-enter (zero ∷ index) zero x lt e = refl
unvisited-enter (suc y ∷ index) zero x lt e = absurd (omega arith)
unvisited-enter (zero ∷ index) (suc i) x lt e = ap suc (unvisited-enter index i x (omega arith) e)
unvisited-enter (suc y ∷ index) (suc i) x lt e = unvisited-enter index i x (omega arith) e

finish-root :
    (inf height i : ℕ) (st : Walk)
    → index_of st i ≡ height
    → finish inf height i st ≡ pop_loop inf i st.index st.vertices st.f
unfolding finish
finish-root inf height i st e = rw (e, ==_refl height) refl

finish-stay :
    (inf height i : ℕ) (st : Walk) → index_of st i ≢ height → finish inf height i st ≡ done st
unfolding finish
finish-stay inf height i st ne = rw (==_ne (index_of st i) height ne) refl

module _ (r : List (List ℕ)) (start : Matrix) (n w : ℕ) where
  module _ (i : ℕ) (st : Walk) (ok : IsWalk r start n w st) (i_lt : i < n)
      (white : index_of st i ≡ 0) where
    height_lt : suc (length st.vertices) ≤ n
    height_lt =
        let size = ok.marks in
        let one = unvisited-enter st.index i 0 (omega arith) white in
        let room = ok.room in omega arith

    self : index_of (enter i st) i ≡ suc (length st.vertices)
    self = let size = ok.marks in get_or-set_self st.index i _ 0 (omega arith)

    others : (v : ℕ) → v ≢ i → index_of (enter i st) v ≡ index_of st v
    others v ne = get_or-set_ne st.index i v _ 0 (λ e. ne (sym e))

    not_i : (p v : ℕ) → At st.vertices p v → v ≢ i
    not_i p v at same =
        let (lt, lo, hi) = ok.on_stack p v at in
        let e : index_of st v ≡ 0 = rw same white in omega arith

    finished_ne : (v : ℕ) → index_of (enter i st) v ≡ infinity n → v ≢ i
    finished_ne v e same =
        let e' : index_of (enter i st) i ≡ infinity n = rw same at e in
        let lt = height_lt in let s = self in omega arith

    seen_ne : (v : ℕ) → index_of st v ≢ 0 → v ≢ i
    seen_ne v seen same = seen (rw same white)

    status_enter :
        (v : ℕ)
        → v < n
        → (index_of (enter i st) v ≡ 0)
          ⊎ ((index_of (enter i st) v ≡ infinity n) ⊎ ((p : ℕ) × At (i ∷ st.vertices) p v))
    status_enter v lt = elim (ℕ_discrete v i) [
      | yes same ↦ inr (inr (suc (length st.vertices), inl (refl, sym same)))
      | no ne ↦ elim (ok.status v lt) [
        | inl e ↦ inl (others v ne ∙ e)
        | inr (inl e) ↦ inr (inl (others v ne ∙ e))
        | inr (inr (p, at)) ↦ inr (inr (p, inr at))
      ]
    ]

    enter-IsWalk : IsWalk r start n w (enter i st)
    enter-IsWalk = record {
      marks = length-set st.index i _ ∙ ok.marks;
      rows = ok.rows;
      sized = ok.sized;
      room =
          let size = ok.marks in
          let one = unvisited-enter st.index i (length st.vertices) (omega arith) white in
          let room = ok.room in omega arith;
      one_each = OneEach-push st.vertices i ok.one_each (λ p at. not_i p i at refl);
      status = status_enter;
      on_stack = λ p v at. elim at [
        | inl (e, same) ↦ rw (sym same) (let s = self in (i_lt, omega arith, omega arith))
        | inr at' ↦ rw (others v (not_i p v at')) (ok.on_stack p v at')
      ];
      back = λ p v at. elim at [
        | inl (e, same) ↦ rw (sym same) (i, inl (self, refl), here)
        | inr at' ↦
            let (u, u_at, path) = ok.back p v at' in
            rw (others v (not_i p v at')) (u, inr u_at, path)
      ];
      closed = λ v k e m.
          let old = ok.closed v k (sym (others v (finished_ne v e)) ∙ e) m in
          others k (seen_ne k (λ z. omega arith)) ∙ old;
      full = λ v b e gathers. ok.full v b (sym (others v (finished_ne v e)) ∙ e) gathers;
      sound = ok.sound;
      keeps = ok.keeps;
    }

    pub enter-Going : Going r start n w st i (get_or r i []) (enter i st)
    enter-Going = record {
      walk = enter-IsWalk;
      above = [];
      pushed = refl;
      same = record { index = λ v seen. others v (seen_ne v seen); f = λ v seen. refl };
      left =
          λ p x at above. let (lo, hi) = At-range (i ∷ st.vertices) p x at in absurd (omega arith);
      taken = λ k m. inl m;
      fewer =
          let size = ok.marks in
          let one = unvisited-enter st.index i (length st.vertices) (omega arith) white in
          omega arith;
    }

  -- The vertices above one on the stack are visited.
  all-Seen :
      (st : Walk) (above : List ℕ)
      → IsWalk r start n w st
      → ((v : ℕ) → Among v above → (p : ℕ) × At st.vertices p v)
      → Seen st.index n above
  all-Seen st [] ok at = tt
  all-Seen st (x ∷ above) ok at =
      let (p, x_at) = at x (inl refl) in
      let (lt, lo, hi) = ok.on_stack p x x_at in
      (lt, (λ e. omega arith), all-Seen st above ok (λ v m. at v (inr m)))

  module _ (begun : Walk) (i : ℕ) (st : Walk) (g : Going r start n w begun i [] st) where
    finish_cases :
        IsWalk r start n w begun
        → i < n
        → (later : Walk) × (finish (infinity n) (suc (length begun.vertices)) i st ≡ done later)
          × Visited r start n w begun later i
    finish_cases walk i_lt = elim (ℕ_discrete (index_of st i) (suc (length begun.vertices))) [
      | no ne ↦ (st, finish-stay _ _ i st ne, stay-Visited r start n w begun i st g ne)
      | yes root ↦
          let marks = g.walk.marks in
          let rows = g.walk.rows in
          let at_above =
            λ (v : ℕ). λ (m : Among v g.above). Among-At g.above begun.vertices i v m in
          let (out, e, popped) =
            pop_loop-Popped (infinity n) w i g.above begun.vertices st.index st.f (λ e. omega arith)
              (omega arith) g.walk.sized (omega arith) (λ e. omega arith)
              (rw marks (
                all-Seen st g.above g.walk (λ v m.
                  let (p, at, lt) = at_above v m in (p, subst (λ s. At s p v) (sym g.pushed) at))))
              (λ m.
                let (p, at, lt) = at_above i m in
                let same =
                  g.walk.one_each p (suc (length begun.vertices)) i
                    (subst (λ s. At s p i) (sym g.pushed) at) (place r start n w begun i st g) in
                omega arith) in
          (
            out,
            finish-root (infinity n) (suc (length begun.vertices)) i st root
                ∙ ap (λ s. pop_loop (infinity n) i st.index s st.f) g.pushed
                ∙ e,
            off-Visited r start n w begun i st g root out popped walk i_lt,
          )
    ]

  -- What a call of traverse is to do, where `fuel` levels are left.
  abbrev Traverses : ℕ → (ℕ → Walk → Run Walk) → Type 0
  Traverses fuel go =
      (i : ℕ) (st : Walk)
      → IsWalk r start n w st
      → i < n
      → index_of st i ≡ 0
      → unvisited st.index < fuel
      → (later : Walk) × (go i st ≡ done later) × Visited r start n w st later i

  visit_cases :
      (go : ℕ → Walk → Run Walk) (fuel j : ℕ) (st : Walk)
      → Traverses fuel go
      → IsWalk r start n w st
      → j < n
      → unvisited st.index < fuel
      → (later : Walk) × (visit go j st ≡ done later) × Visited r start n w st later j
  unfolding visit
  visit_cases go fuel j st traverses ok lt enough = elim (ℕ_discrete (index_of st j) 0) [
    | yes white ↦
        let (later, e, visited) = traverses j st ok lt white enough in (later, rw white e, visited)
    | no seen ↦ (
      st,
      rw (==_ne _ _ seen) refl,
      record {
        walk = ok;
        above = [];
        pushed = refl;
        same = record { index = λ v s. refl; f = λ v s. refl };
        left = λ p x at above. let (lo, hi) = At-range st.vertices p x at in absurd (omega arith);
        marked = seen;
        fewer = omega arith;
      },
    )
  ]

  module _ (edges_in : (i j : ℕ) → Among j (get_or r i []) → j < n) where
    edge_loop_cases :
        (go : ℕ → Walk → Run Walk) (fuel : ℕ) (begun : Walk) (i : ℕ) (edges : List ℕ) (st : Walk)
        → Traverses fuel go
        → Going r start n w begun i edges st
        → i < n
        → index_of begun i ≡ 0
        → unvisited begun.index ≤ fuel
        → ((j : ℕ) → Among j edges → Among j (get_or r i []))
        → (later : Walk) × (edge_loop go i edges st ≡ done later)
          × Going r start n w begun i [] later
    unfolding edge_loop
    edge_loop_cases go fuel begun i [] st traverses g lt white enough within = (st, refl, g)
    edge_loop_cases go fuel begun i (j ∷ edges) st traverses g lt white enough within =
        let is_edge = within j (inl refl) in
        let fewer = g.fewer in
        let (mid, e, visited) =
          visit_cases go fuel j st traverses g.walk (edges_in i j is_edge) (omega arith) in
        let (later, e', g') =
          edge_loop_cases go fuel begun i edges (take_edge i j mid) traverses
            (Going-taken r start n w begun st mid i j edges g visited lt (edges_in i j is_edge)
              is_edge white)
            lt white enough (λ k m. within k (inr m)) in
        (later, rw e e', g')

    pub traverse-Visited : (fuel : ℕ) → Traverses fuel (traverse r (infinity n) fuel)
    unfolding traverse
    traverse-Visited zero i st ok lt white enough = absurd (omega arith)
    traverse-Visited (suc fuel) i st ok lt white enough =
        let (mid, e, g) =
          edge_loop_cases (traverse r (infinity n) fuel) fuel st i (get_or r i []) (enter i st)
            (traverse-Visited fuel) (enter-Going i st ok lt white) lt white (omega arith)
            (λ j m. m) in
        let (later, e', visited) = finish_cases st i mid g ok lt in
        (later, rw (e, e') refl, visited)
