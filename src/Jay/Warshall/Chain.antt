-- ===== src/Jay/Warshall/Chain.antt =====
-- The closure against chains of the relation.
use llc.Common.{
  ℕ, zero, suc, ◌+◌, ◌/◌, ◌%◌, ◌<◌, ◌≡◌, ◌⊎◌, ◌↔◌, inl, inr, refl, sym, subst, ◌∙◌, arith,
}
use llc.Common.{Bool, true, false, ◌||◌, ◌&&◌, length}
use native.Mathlib.Decide.{ℕ_discrete}
use llc.Jay.Warshall.{Matrix, next_bit, column_loop, transitive_closure}
use llc.Jay.Warshall.Round.{
  related, AllSized, joined, related-lt, row_loop-sized, round, round-joined,
}

-- Through the numbers below `c` the relation is transitive.
abbrev pub Closed : ℕ → Matrix → Type 0
Closed c rows =
    (m j k : ℕ)
    → m < c
    → related rows j m ≡ true
    → related rows m k ≡ true
    → related rows j k ≡ true

-- A chain of related numbers, of at least one step.
pub data Chain (rows : Matrix) : ℕ → ℕ → Type 0 where
  last : {j k : ℕ} → related rows j k ≡ true → Chain rows j k
  step : {j m k : ℕ} → related rows j m ≡ true → Chain rows m k → Chain rows j k

join : {rows : Matrix} {j m k : ℕ} → Chain rows j m → Chain rows m k → Chain rows j k
join (last e) d = step e d
join (step e c) d = step e (join c d)

-- What holds when the rounds below `c` have been made.
pub record Inv (w c : ℕ) (start rows : Matrix) : Type 0 where
  pub size : length rows ≡ length start
  pub sized : AllSized w rows
  pub holds : (j k : ℕ) → related start j k ≡ true → related rows j k ≡ true
  pub sound : (j k : ℕ) → related rows j k ≡ true → Chain start j k
  pub closed : Closed c rows

or_cases : (a b d : Bool) → (a || (b && d)) ≡ true → (a ≡ true) ⊎ ((b ≡ true) × (d ≡ true))
or_cases true b d e = inl refl
or_cases false true true e = inr (refl, refl)
or_cases false true false e = absurd cc
or_cases false false d e = absurd cc

or_left : (a b d : Bool) → a ≡ true → (a || (b && d)) ≡ true
or_left a b d e = rw e refl

or_right : (a b d : Bool) → b ≡ true → d ≡ true → (a || (b && d)) ≡ true
or_right true b d e f = refl
or_right false b d e f = rw (e, f) refl

module _ (w c : ℕ) (start rows : Matrix) (inv : Inv w c start rows)
    (inside : c < length start) where
  open inv use {size, sized, holds, sound, closed}

  related-round : (j k : ℕ) → related (round w c rows) j k ≡ joined rows c j k
  related-round j k = round-joined w c j k rows (omega (arith, size)) sized

  old-related : (j k : ℕ) → related rows j k ≡ true → related (round w c rows) j k ≡ true
  old-related j k e =
      related-round j k ∙ or_left (related rows j k) (related rows j c) (related rows c k) e

  via-related :
      (j k : ℕ)
      → related rows j c ≡ true
      → related rows c k ≡ true
      → related (round w c rows) j k ≡ true
  via-related j k e f =
      related-round j k ∙ or_right (related rows j k) (related rows j c) (related rows c k) e f

  round-cases :
      (j k : ℕ)
      → related (round w c rows) j k ≡ true
      → (related rows j k ≡ true) ⊎ ((related rows j c ≡ true) × (related rows c k ≡ true))
  round-cases j k e =
      or_cases (related rows j k) (related rows j c) (related rows c k)
        (sym (related-round j k) ∙ e)

  -- A step to or from `c` itself is none of the new ones.
  to_pivot : (j : ℕ) → related (round w c rows) j c ≡ true → related rows j c ≡ true
  to_pivot j e = elim (round-cases j c e) [ inl f ↦ f | inr (f, _) ↦ f ]

  from_pivot : (k : ℕ) → related (round w c rows) c k ≡ true → related rows c k ≡ true
  from_pivot k e = elim (round-cases c k e) [ inl f ↦ f | inr (_, f) ↦ f ]

  round-Closed : Closed (c + 1) (round w c rows)
  round-Closed m j k h e f = elim (ℕ_discrete m c) [
    | yes same ↦ via-related j k (to_pivot j (rw same at e)) (from_pivot k (rw same at f))
    | no apart ↦
        let below : m < c = omega arith in
        elim (round-cases j m e) [
          | inl jm ↦ elim (round-cases m k f) [
            | inl mk ↦ old-related j k (closed m j k below jm mk)
            | inr (mc, ck) ↦ via-related j k (closed m j c below jm mc) ck
          ]
          | inr (jc, cm) ↦ elim (round-cases m k f) [
            | inl mk ↦ via-related j k jc (closed m c k below cm mk)
            | inr (mc, ck) ↦ via-related j k jc ck
          ]
        ]
  ]

  round-Inv : Inv w (c + 1) start (round w c rows)
  round-Inv =
      let (same, still) = row_loop-sized w c (length rows) 0 rows (omega arith) sized in
      record {
        size = same ∙ size;
        sized = still;
        holds = λ j k e. old-related j k (holds j k e);
        sound = λ j k e. elim (round-cases j k e) [
          | inl f ↦ sound j k f
          | inr (f, g) ↦ join (sound j c f) (sound c k g)
        ];
        closed = round-Closed;
      }

pub next_bit-at :
    (c : ℕ)
    → ((next_bit (c / 32) (c % 32)).0 ≡ (c + 1) / 32)
      × ((next_bit (c / 32) (c % 32)).1 ≡ (c + 1) % 32)
next_bit-at c = ground arith

column_loop-Inv :
    (w left c : ℕ) (start rows : Matrix)
    → Inv w c start rows
    → c + left ≡ length start
    → Inv w (length start) start (column_loop left c (c / 32) (c % 32) rows)
unfolding column_loop
column_loop-Inv w zero c start rows inv total = subst (λ n. Inv w n start rows) (omega arith) inv
column_loop-Inv w (suc left) c start rows inv total =
    rw ((next_bit-at c).0, (next_bit-at c).1)
      (column_loop-Inv w left (c + 1) start (round w c rows)
        (round-Inv w c start rows inv (omega arith)) (omega arith))

start-Inv : (w : ℕ) (rows : Matrix) → AllSized w rows → Inv w 0 rows rows
start-Inv w rows sized = record {
  size = refl;
  sized = sized;
  holds = λ j k e. e;
  sound = λ j k e. last e;
  closed = λ m j k h e f. absurd (omega arith);
}

pub closure-Inv :
    (w : ℕ) (rows : Matrix) → AllSized w rows → Inv w (length rows) rows (transitive_closure rows)
unfolding transitive_closure
closure-Inv w rows sized =
    column_loop-Inv w (length rows) 0 rows rows (start-Inv w rows sized) (omega arith)

pub Chain-lt : (rows : Matrix) (j k : ℕ) → Chain rows j k → j < length rows
Chain-lt rows j k (last e) = related-lt rows j k e
Chain-lt rows j k (step {m = m} e c) = related-lt rows j m e

closed-Chain :
    (w : ℕ) (start rows : Matrix) (j k : ℕ)
    → Inv w (length start) start rows
    → Chain start j k
    → related rows j k ≡ true
closed-Chain w start rows j k inv (last e) = inv.holds j k e
closed-Chain w start rows j k inv (step {m = m} e c) =
    inv.closed m j k (Chain-lt start m k c) (inv.holds j m e) (closed-Chain w start rows m k inv c)

-- In a matrix whose rows have equally many words, the closure relates exactly the ends of the chains of
-- related numbers.
pub transitive_closure-Chain :
    (w : ℕ) (rows : Matrix) (j k : ℕ)
    → AllSized w rows
    → (related (transitive_closure rows) j k ≡ true) ↔ Chain rows j k
transitive_closure-Chain w rows j k sized =
    let inv = closure-Inv w rows sized in
    (inv.sound j k, closed-Chain w rows (transitive_closure rows) j k inv)
