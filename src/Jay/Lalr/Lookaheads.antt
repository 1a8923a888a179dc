-- ===== src/Jay/Lalr/Lookaheads.antt =====
-- The lookahead sets, from the relations between the gotos.
use llc.Common.{ℕ, zero, suc, ◌+◌, ◌≤◌, ◌<◌, ◌≡◌, ◌↔◌, ◌⊎◌, inl, inr, refl, sym, subst, ◌∙◌, arith}
use llc.Common.{
  Bool, true, false, ◌||◌, List, [], ◌∷◌, map, length, length-map, get_or, get_or_out, done, Among,
}
use native.Mathlib.Decide.{dec_lt}
use llc.Jay.Bits.{zeros, or_words, bit, bit-zeros, length-zeros, bit-or_words, length-or_words}
use llc.Jay.Grammar.{maxshort}
use llc.Jay.Warshall.{Matrix, row}
use llc.Jay.Warshall.Round.{related, AllSized, length-row, related_out}
use llc.Jay.Digraph.State.{Gathers}
use llc.Jay.Digraph.Gather.{digraph-Gathers}
use llc.Jay.Lalr.{union_loop, compute_lookaheads, look_ahead}

get_or-map {ℓ κ} :
    {A : Type ℓ} {B : Type κ} (f : A → B) (xs : List A) (i : ℕ) (d : A) (e : B)
    → i < length xs
    → get_or (map f xs) i e ≡ f (get_or xs i d)
get_or-map f [] i d e lt = absurd (omega arith)
get_or-map f (x ∷ xs) zero d e lt = refl
get_or-map f (x ∷ xs) (suc i) d e lt = get_or-map f xs i d e (omega arith)

or_cases : (a b : Bool) → (a || b) ≡ true → (a ≡ true) ⊎ (b ≡ true)
or_cases true b e = inl refl
or_cases false b e = inr e

or_left : (a b : Bool) → a ≡ true → (a || b) ≡ true
or_left true b e = refl
or_left false b e = absurd cc

or_right : (a b : Bool) → b ≡ true → (a || b) ≡ true
or_right true b e = refl
or_right false b e = e

module _ (f : Matrix) (w : ℕ) (sized : AllSized w f) where
  -- A bit of the row after a turn of the loop.
  bit-turn :
      (bits : List ℕ) (p b : ℕ)
      → length bits ≡ w
      → p < length f
      → bit (or_words bits (row f p)) b ≡ (bit bits b || related f p b)
  unfolding related
  bit-turn bits p b size lt = bit-or_words bits (row f p) b (size ∙ sym (length-row w f p sized lt))

  union_loop_sound :
      (bits ps : List ℕ) (b : ℕ)
      → length bits ≡ w
      → ((p : ℕ) → Among p ps → p < length f)
      → bit (union_loop f bits ps) b ≡ true
      → (bit bits b ≡ true) ⊎ ((p : ℕ) × Among p ps × (related f p b ≡ true))
  unfolding union_loop
  union_loop_sound bits [] b size inside on = inl on
  union_loop_sound bits (p ∷ ps) b size inside on =
      elim (union_loop_sound (or_words bits (row f p)) ps b (length-or_words bits (row f p) ∙ size)
        (λ q m. inside q (inr m)) on) [
          | inr (q, m, here) ↦ inr (q, inr m, here)
          | inl before ↦
              elim (or_cases (bit bits b) (related f p b)
                (sym (bit-turn bits p b size (inside p (inl refl))) ∙ before)) [
                  | inl old ↦ inl old
                  | inr new ↦ inr (p, inl refl, new)
                ]
        ]

  union_loop-keeps :
      (bits ps : List ℕ) (b : ℕ)
      → length bits ≡ w
      → ((p : ℕ) → Among p ps → p < length f)
      → bit bits b ≡ true
      → bit (union_loop f bits ps) b ≡ true
  unfolding union_loop
  union_loop-keeps bits [] b size inside on = on
  union_loop-keeps bits (p ∷ ps) b size inside on =
      union_loop-keeps (or_words bits (row f p)) ps b (length-or_words bits (row f p) ∙ size)
        (λ q m. inside q (inr m))
        (bit-turn bits p b size (inside p (inl refl)) ∙ or_left (bit bits b) (related f p b) on)

  union_loop_complete :
      (bits ps : List ℕ) (p b : ℕ)
      → length bits ≡ w
      → ((q : ℕ) → Among q ps → q < length f)
      → Among p ps
      → related f p b ≡ true
      → bit (union_loop f bits ps) b ≡ true
  unfolding union_loop
  union_loop_complete bits [] p b size inside m on = elim m [ ]
  union_loop_complete bits (q ∷ ps) p b size inside (inl e) on =
      union_loop-keeps (or_words bits (row f q)) ps b (length-or_words bits (row f q) ∙ size)
        (λ k m. inside k (inr m))
        (bit-turn bits q b size (inside q (inl refl))
          ∙ or_right (bit bits b) (related f q b) (subst (λ k. related f k b ≡ true) (sym e) on))
  union_loop_complete bits (q ∷ ps) p b size inside (inr m) on =
      union_loop_complete (or_words bits (row f q)) ps p b (length-or_words bits (row f q) ∙ size)
        (λ k m. inside k (inr m)) m on

  related-union_loop :
      (lookback : List (List ℕ)) (i b : ℕ)
      → related (compute_lookaheads w f lookback) i b
        ≡ bit (union_loop f (zeros w) (get_or lookback i [])) b
  unfolding compute_lookaheads related union_loop
  related-union_loop lookback i b = elim (dec_lt i (length lookback)) [
    | yes lt ↦ rw (get_or-map (λ edges. union_loop f (zeros w) edges) lookback i [] [] lt) refl
    | no out ↦
        let size = length-map lookback (λ edges. union_loop f (zeros w) edges) in
        rw (get_or_out lookback i [] (omega arith))
          (related_out _ i b (omega (arith, size)) ∙ sym (bit-zeros w b))
  ]

  -- A row of LA holds the bits of the rows of F that its entry of lookback lists.
  compute_lookaheads-union :
      (lookback : List (List ℕ)) (i b : ℕ)
      → ((p : ℕ) → Among p (get_or lookback i []) → p < length f)
      → (related (compute_lookaheads w f lookback) i b ≡ true)
        ↔ ((p : ℕ) × Among p (get_or lookback i []) × (related f p b ≡ true))
  compute_lookaheads-union lookback i b inside =
      let e = related-union_loop lookback i b in
      let edges = get_or lookback i [] in
      (
        λ on. elim (union_loop_sound (zeros w) edges b (length-zeros w) inside (sym e ∙ on)) [
          | inl zero_bit ↦ let clash : false ≡ true = sym (bit-zeros w b) ∙ zero_bit in absurd cc
          | inr found ↦ found
        ],
        λ (p, m, on). e ∙ union_loop_complete (zeros w) edges p b (length-zeros w) inside m on,
      )

module _ (includes : List (List ℕ)) (start : Matrix) (n w : ℕ) where
  -- compute_FOLLOWS and compute_lookaheads end, and the lookahead set of a reduction holds exactly the
  -- tokens in the rows of F of the gotos to which includes leads, in any number of steps, from
  -- a goto of the reduction's lookback.
  pub look_ahead-Gathers :
      (lookback : List (List ℕ))
      → n + 2 ≤ maxshort
      → length includes ≡ n
      → length start ≡ n
      → AllSized w start
      → ((i j : ℕ) → Among j (get_or includes i []) → j < n)
      → ((i p : ℕ) → Among p (get_or lookback i []) → p < n)
      → (la : Matrix) × (look_ahead w n start includes lookback ≡ done la)
        × ((i b : ℕ)
            → (related la i b ≡ true)
              ↔ ((p : ℕ) × Among p (get_or lookback i []) × Gathers includes start p b))
  unfolding look_ahead
  look_ahead-Gathers lookback short size rows sized edges_in inside =
      let (f, e, rows', sized', gathers) =
        digraph-Gathers includes start n w edges_in short size rows sized in
      (
        compute_lookaheads w f lookback,
        rw e refl,
        λ i b.
            let (there, back) =
              compute_lookaheads-union f w sized' lookback i b
                (λ p m. let lt = inside i p m in omega (arith, rows')) in
            (
              λ on. let (p, m, bit_on) = there on in (p, m, (gathers p b).0 bit_on),
              λ (p, m, reached). back (p, m, (gathers p b).1 reached),
            ),
      )
