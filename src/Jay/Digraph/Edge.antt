-- ===== src/Jay/Digraph/Edge.antt =====
-- An edge that traverse takes.
use llc.Common.{ℕ, zero, suc, ◌≤◌, ◌<◌, ◌≡◌, ◌≢◌, ◌⊎◌, inl, inr, refl, sym, ap, ◌∙◌, arith}
use llc.Common.{
  Bool, true, false, ◌||◌, List, [], ◌∷◌, length, length-set, get_or, set, get_or-set_self,
  get_or-set_ne, ltb, Among, Bool-cases,
}
use native.Mathlib.Decide.{ℕ_discrete}
use llc.Jay.Bits.{or_words, bit-or_words, length-or_words}
use llc.Jay.Warshall.{Matrix, row}
use llc.Jay.Warshall.Round.{related, related_cong, AllSized, AllSized-set, length-row}
use llc.Jay.Digraph.{Walk, index_of, take_edge}
use llc.Jay.Digraph.Stack.{At, At-range}
use llc.Jay.Digraph.State.{Reaches, edge, Gathers, unvisited, infinity, IsWalk}

pub unvisited-set :
    (index : List ℕ) (i x : ℕ)
    → get_or index i 0 ≢ 0
    → x ≢ 0
    → unvisited (set index i x) ≡ unvisited index
unfolding unvisited
unvisited-set [] i x old new = refl
unvisited-set (zero ∷ index) zero x old new = absurd (old refl)
unvisited-set (suc y ∷ index) zero zero old new = absurd (new refl)
unvisited-set (suc y ∷ index) zero (suc x) old new = refl
unvisited-set (zero ∷ index) (suc i) x old new = ap suc (unvisited-set index i x old new)
unvisited-set (suc y ∷ index) (suc i) x old new = unvisited-set index i x old new

-- What taking edge `j` of `i` does.
pub record Takes (st later : Walk) (i j : ℕ) : Type 0 where
  pub others : (v : ℕ) → v ≢ i → index_of later v ≡ index_of st v
  pub low : index_of later i ≤ index_of st i
  pub low_edge : index_of later i ≤ index_of st j
  pub either : (index_of later i ≡ index_of st i) ⊎ (index_of later i ≡ index_of st j)
  pub other_rows : (v : ℕ) → v ≢ i → row later.f v ≡ row st.f v
  pub joined : (b : ℕ) → related later.f i b ≡ (related st.f i b || related st.f j b)

or_cases : (a b : Bool) → (a || b) ≡ true → (a ≡ true) ⊎ (b ≡ true)
or_cases true b e = inl refl
or_cases false b e = inr e

pub or_right : (a : Bool) {b : Bool} → b ≡ true → (a || b) ≡ true
or_right true e = refl
or_right false e = e

module _ (r : List (List ℕ)) (start : Matrix) (n w : ℕ) where
  module _ (st : Walk) (ok : IsWalk r start n w st) (i j : ℕ) (i_lt : i < n) (j_lt : j < n) where
    joined_lem :
        (b : ℕ)
        → related (set st.f i (or_words (row st.f i) (row st.f j))) i b
          ≡ (related st.f i b || related st.f j b)
    unfolding related
    joined_lem b =
        let size = ok.rows in
        let i_size = length-row w st.f i ok.sized (omega arith) in
        let j_size = length-row w st.f j ok.sized (omega arith) in
        rw (get_or-set_self st.f i (or_words (row st.f i) (row st.f j)) [] (omega arith))
          (bit-or_words (row st.f i) (row st.f j) b (i_size ∙ sym j_size))

    pub take_edge-Takes : Takes st (take_edge i j st) i j
    unfolding take_edge
    take_edge-Takes =
        let size = ok.marks in
        elim (Bool-cases (ltb (index_of st j) (index_of st i))) [
          | inl less ↦
              let self = get_or-set_self st.index i (index_of st j) 0 (omega arith) in
              rw less (record {
                others = λ v ne. get_or-set_ne st.index i v (index_of st j) 0 (λ e. ne (sym e));
                low = ground (arith, less, self);
                low_edge = omega arith;
                either = inr self;
                other_rows = λ v ne. get_or-set_ne st.f i v _ [] (λ e. ne (sym e));
                joined = joined_lem;
              })
          | inr not_less ↦ rw not_less (record {
            others = λ v ne. refl;
            low = omega arith;
            low_edge = ground (arith, not_less);
            either = inl refl;
            other_rows = λ v ne. get_or-set_ne st.f i v _ [] (λ e. ne (sym e));
            joined = joined_lem;
          })
        ]

    -- A vertex on the stack is not finished.
    pub unfinished : (p v : ℕ) → At st.vertices p v → index_of st v < infinity n
    unfinished p v at =
        let (lt, lo, hi) = ok.on_stack p v at in
        let (lo', hi') = At-range st.vertices p v at in let room = ok.room in omega arith

    module _ (j_seen : index_of st j ≢ 0) (is_edge : Among j (get_or r i [])) where
      module _ (pi : ℕ) (i_at : At st.vertices pi i) where
        abbrev later : Walk
        later = take_edge i j st

        i_seen : index_of st i ≢ 0
        i_seen e = let (lt, lo, hi) = ok.on_stack pi i i_at in omega arith

        -- The vertex that an edge goes on to is finished or on the stack.
        pub not_self : (v : ℕ) → index_of later v ≡ infinity n → v ≢ i
        not_self v e same =
            let lt = unfinished pi i i_at in
            let low = take_edge-Takes.low in
            let e' : index_of later i ≡ infinity n = rw same at e in omega arith

        finished_before : (v : ℕ) → index_of later v ≡ infinity n → index_of st v ≡ infinity n
        finished_before v e = sym (take_edge-Takes.others v (not_self v e)) ∙ e

        pub still_finished : (v : ℕ) → index_of st v ≡ infinity n → index_of later v ≡ infinity n
        still_finished v e =
            let lt = unfinished pi i i_at in
            take_edge-Takes.others v
              (λ same. let e' : index_of st i ≡ infinity n = rw same at e in omega arith)
            ∙ e

        index_size : length later.index ≡ n
        unfolding take_edge
        index_size = elim (Bool-cases (ltb (index_of st j) (index_of st i))) [
          | inl less ↦ rw less (length-set st.index i (index_of st j) ∙ ok.marks)
          | inr not_less ↦ rw not_less (ok.marks)
        ]

        pub unvisited_same : unvisited later.index ≡ unvisited st.index
        unfolding take_edge
        unvisited_same = elim (Bool-cases (ltb (index_of st j) (index_of st i))) [
          | inl less ↦ rw less (unvisited-set st.index i (index_of st j) i_seen j_seen)
          | inr not_less ↦ rw not_less refl
        ]

        sound_later : (v b : ℕ) → related later.f v b ≡ true → Gathers r start v b
        sound_later v b on = elim (ℕ_discrete v i) [
          | no ne ↦
              ok.sound v b
                (sym (related_cong st.f later.f v b (take_edge-Takes.other_rows v ne)) ∙ on)
          | yes same ↦
              let on' : related later.f i b ≡ true = rw same at on in
              rw same (elim (or_cases _ _ (sym (take_edge-Takes.joined b) ∙ on')) [
                | inl own ↦ ok.sound i b own
                | inr other ↦
                    let (k, path, bit_on) = ok.sound j b other in (k, edge is_edge path, bit_on)
              ])
        ]

        -- No row loses a bit.
        pub row_grows : (v b : ℕ) → related st.f v b ≡ true → related later.f v b ≡ true
        row_grows v b on = elim (ℕ_discrete v i) [
          | no ne ↦ related_cong st.f later.f v b (take_edge-Takes.other_rows v ne) ∙ on
          | yes same ↦ rw same (take_edge-Takes.joined b ∙ rw (rw same at on) refl)
        ]

        back_later :
            (p v : ℕ)
            → At st.vertices p v
            → (u : ℕ) × At st.vertices (index_of later v) u × Reaches r v u
        back_later p v at = elim (ℕ_discrete v i) [
          | no ne ↦ rw (take_edge-Takes.others v ne) (ok.back p v at)
          | yes same ↦ rw same (elim take_edge-Takes.either [
            | inl own ↦ rw own (ok.back pi i i_at)
            | inr other ↦ elim (ok.status j j_lt) [
              | inl white ↦ absurd (j_seen white)
              | inr (inl finished) ↦
                  let low = take_edge-Takes.low in
                  let lt = unfinished pi i i_at in absurd (omega arith)
              | inr (inr (q, j_at)) ↦
                  let (u, u_at, path) = ok.back q j j_at in rw other (u, u_at, edge is_edge path)
            ]
          ])
        ]

        on_stack_later :
            (p v : ℕ)
            → At st.vertices p v
            → (v < n) × (1 ≤ index_of later v) × (index_of later v ≤ p)
        on_stack_later p v at = elim (ℕ_discrete v i) [
          | no ne ↦ rw (take_edge-Takes.others v ne) (ok.on_stack p v at)
          | yes same ↦
              let (lt, lo, hi) = ok.on_stack p v at in
              let low = take_edge-Takes.low in
              let hi' : index_of st i ≤ p = rw same at hi in
              let lo' : 1 ≤ index_of st i = rw same at lo in
              rw same (
                i_lt,
                elim take_edge-Takes.either [ inl own ↦ omega arith | inr other ↦ omega arith ],
                omega arith,
              )
        ]

        status_later :
            (v : ℕ)
            → v < n
            → (index_of later v ≡ 0)
              ⊎ ((index_of later v ≡ infinity n) ⊎ ((p : ℕ) × At st.vertices p v))
        status_later v lt = elim (ℕ_discrete v i) [
          | no ne ↦ rw (take_edge-Takes.others v ne) (ok.status v lt)
          | yes same ↦ rw same (inr (inr (pi, i_at)))
        ]

        rows_later : AllSized w later.f
        unfolding take_edge
        rows_later =
            let size = ok.rows in
            AllSized-set w st.f i _ ok.sized (
              length-or_words (row st.f i) (row st.f j)
              ∙ length-row w st.f i ok.sized (omega arith))

        pub same_stack : later.vertices ≡ st.vertices
        unfolding take_edge
        same_stack = refl

        length-f : length later.f ≡ n
        unfolding take_edge
        length-f = length-set st.f i _ ∙ ok.rows

        pub take_edge-IsWalk : IsWalk r start n w later
        take_edge-IsWalk = record {
          marks = index_size;
          rows = length-f;
          sized = rows_later;
          room = rw (unvisited_same, same_stack) (ok.room);
          one_each = rw same_stack (ok.one_each);
          status = rw same_stack status_later;
          on_stack = rw same_stack on_stack_later;
          back = rw same_stack back_later;
          closed = λ v k e m. still_finished k (ok.closed v k (finished_before v e) m);
          full = λ v b e gathers. row_grows v b (ok.full v b (finished_before v e) gathers);
          sound = sound_later;
          keeps = λ v b on. row_grows v b (ok.keeps v b on);
        }
