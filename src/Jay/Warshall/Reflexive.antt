-- ===== src/Jay/Warshall/Reflexive.antt =====
-- reflexive_transitive_closure against chains of the relation.
use llc.Common.{
  ℕ, zero, suc, ◌+◌, ◌/◌, ◌%◌, ◌^◌, ◌≤◌, ◌<◌, ◌≡◌, ◌≢◌, ◌⊎◌, ◌↔◌, inl, inr, refl, sym, ◌∙◌, arith,
}
use llc.Common.{true, [], length, length-set, get_or, set, get_or-set_self, get_or-set_ne}
use native.Mathlib.Decide.{ℕ_discrete}
use Prim.Native.Nat.{bit_or}
use llc.Jay.Bits.{word_size, bit-set_self, bit-set_ne}
use llc.Jay.Warshall.{
  Matrix, row, next_bit, diagonal_loop, transitive_closure, reflexive_transitive_closure,
}
use llc.Jay.Warshall.Round.{related, AllSized, AllSized-set, length-row, related_cong, related-lt}
use llc.Jay.Warshall.Chain.{Chain, Chain-lt, closure-Inv, transitive_closure-Chain, next_bit-at}

abbrev diagonal : ℕ → Matrix → Matrix
diagonal j rows =
    set rows j (set (row rows j) (j / 32) (bit_or (get_or (row rows j) (j / 32) 0) (2 ^ (j % 32))))

diagonal_self :
    (j : ℕ) (rows : Matrix)
    → j < length rows
    → j / 32 < length (row rows j)
    → related (diagonal j rows) j j ≡ true
unfolding related
diagonal_self j rows h hw = rw (get_or-set_self rows j _ [] h) (bit-set_self (row rows j) j hw)

diagonal-same :
    (j k : ℕ) (rows : Matrix)
    → j < length rows
    → j ≢ k
    → related (diagonal j rows) j k ≡ related rows j k
unfolding related
diagonal-same j k rows h ne = rw (get_or-set_self rows j _ [] h) (bit-set_ne (row rows j) j k ne)

diagonal-other :
    (j j' k : ℕ) (rows : Matrix) → j ≢ j' → related (diagonal j rows) j' k ≡ related rows j' k
diagonal-other j j' k rows ne =
    related_cong rows (diagonal j rows) j' k (get_or-set_ne rows j j' _ [] ne)

-- Off the diagonal nothing changes.
diagonal-off :
    (j j' k : ℕ) (rows : Matrix)
    → j < length rows
    → j' ≢ k
    → related (diagonal j rows) j' k ≡ related rows j' k
diagonal-off j j' k rows h ne = elim (ℕ_discrete j j') [
  | yes same ↦ rw same (diagonal-same j' k rows (rw same at h) ne)
  | no apart ↦ diagonal-other j j' k rows apart
]

diagonal_loop-off :
    (left j j' k : ℕ) (rows : Matrix)
    → j + left ≡ length rows
    → j' ≢ k
    → related (diagonal_loop left j (j / 32) (j % 32) rows) j' k ≡ related rows j' k
unfolding diagonal_loop
diagonal_loop-off zero j j' k rows total ne = refl
diagonal_loop-off (suc left) j j' k rows total ne =
    rw ((next_bit-at j).0, (next_bit-at j).1)
      (diagonal_loop-off left (j + 1) j' k (diagonal j rows) (omega (arith, length-set rows j _)) ne
        ∙ diagonal-off j j' k rows (omega arith) ne)

diagonal_loop-before :
    (left j j' : ℕ) (rows : Matrix)
    → j' < j
    → related (diagonal_loop left j (j / 32) (j % 32) rows) j' j' ≡ related rows j' j'
unfolding diagonal_loop
diagonal_loop-before zero j j' rows h = refl
diagonal_loop-before (suc left) j j' rows h =
    rw ((next_bit-at j).0, (next_bit-at j).1)
      (diagonal_loop-before left (j + 1) j' (diagonal j rows) (omega arith)
        ∙ diagonal-other j j' j' rows (λ e. omega arith))

diagonal_loop-on :
    (w left j j' : ℕ) (rows : Matrix)
    → AllSized w rows
    → word_size (length rows) ≤ w
    → j + left ≡ length rows
    → j ≤ j'
    → j' < length rows
    → related (diagonal_loop left j (j / 32) (j % 32) rows) j' j' ≡ true
unfolding diagonal_loop
diagonal_loop-on w zero j j' rows sized wide total lo hi = absurd (omega arith)
diagonal_loop-on w (suc left) j j' rows sized wide total lo hi =
    rw ((next_bit-at j).0, (next_bit-at j).1)
      (elim (ℕ_discrete j j') [
        | yes same ↦
            diagonal_loop-before left (j + 1) j' (diagonal j rows) (omega arith)
            ∙ rw same (diagonal_self j' rows hi (omega (arith, length-row w rows j' sized hi)))
        | no apart ↦
            diagonal_loop-on w left (j + 1) j' (diagonal j rows)
              (AllSized-set w rows j _ sized
                (length-set (row rows j) _ _ ∙ length-row w rows j sized (omega arith)))
              (omega (arith, length-set rows j _)) (omega (arith, length-set rows j _))
              (omega arith) (omega (arith, length-set rows j _))
      ])

length-diagonal_loop :
    (left j word i : ℕ) (rows : Matrix) → length (diagonal_loop left j word i rows) ≡ length rows
unfolding diagonal_loop
length-diagonal_loop zero j word i rows = refl
length-diagonal_loop (suc left) j word i rows =
    length-diagonal_loop left (j + 1) (next_bit word i).0 (next_bit word i).1 _
    ∙ length-set rows j _

-- In a square matrix whose rows have enough words, equally many, the reflexive closure relates exactly
-- each number below the size to itself and the ends of the chains of related numbers.
pub reflexive_transitive_closure-Chain :
    (w : ℕ) (rows : Matrix) (j k : ℕ)
    → AllSized w rows
    → word_size (length rows) ≤ w
    → (related (reflexive_transitive_closure rows) j k ≡ true)
      ↔ (((j ≡ k) × (j < length rows)) ⊎ Chain rows j k)
unfolding reflexive_transitive_closure
reflexive_transitive_closure-Chain w rows j k sized wide =
    let inv = closure-Inv w rows sized in
    let closed = transitive_closure rows in
    let (sound, full) = transitive_closure-Chain w rows j k sized in
    let long = length-diagonal_loop (length closed) 0 0 0 closed in
    let on = λ (h : j < length rows).
      diagonal_loop-on w (length closed) 0 j closed inv.sized (omega (arith, inv.size))
        (omega arith) (omega arith) (omega (arith, inv.size)) in
    let off = λ (ne : j ≢ k). diagonal_loop-off (length closed) 0 j k closed (omega arith) ne in
    elim (ℕ_discrete j k) [
      | yes same ↦ (
        λ e. inl (same, omega (arith, inv.size, long, related-lt _ j k e)),
        λ reached. elim reached [
          | inl (_, h) ↦ rw (← same) (on h)
          | inr c ↦ rw (← same) (on (Chain-lt rows j k c))
        ],
      )
      | no ne ↦ (
        λ e. inr (sound (sym (off ne) ∙ e)),
        λ reached. elim reached [ inl (same, _) ↦ absurd (ne same) | inr c ↦ off ne ∙ full c ],
      )
    ]
