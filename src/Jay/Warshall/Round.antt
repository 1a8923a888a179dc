-- ===== src/Jay/Warshall/Round.antt =====
-- A round of the outer loop of transitive_closure.
use llc.Common.{ℕ, zero, suc, ◌+◌, ◌/◌, ◌%◌, ◌≤◌, ◌<◌, ◌≡◌, ◌≢◌, inl, inr, refl, sym, ◌∙◌, arith}
use llc.Common.{
  Bool, true, false, ◌||◌, ◌&&◌, Bool-cases, List, [], ◌∷◌, length, length-set, set,
  get_or-set_self, get_or-set_ne, get_or_out,
}
use native.Mathlib.Decide.{dec_lt, ℕ_discrete}
use llc.Jay.Bits.{or_words, bit, length-or_words, bit-or_words, or_false, test_bit-zero_word}
use llc.Jay.Warshall.{Matrix, row, add_row, row_loop}

-- Row `j` of the relation holds `k`.
unfoldable pub related : Matrix → ℕ → ℕ → Bool
related rows j k = bit (row rows j) k

-- All rows have `w` words.
abbrev pub AllSized : ℕ → Matrix → Type 0
AllSized w [] = Unit
AllSized w (r ∷ rows) = (length r ≡ w) × AllSized w rows

pub length-row :
    (w : ℕ) (rows : Matrix) (j : ℕ) → AllSized w rows → j < length rows → length (row rows j) ≡ w
length-row w [] j h lt = absurd (omega arith)
length-row w (r ∷ rows) zero h lt = h.0
length-row w (r ∷ rows) (suc j) h lt = length-row w rows j h.1 (omega arith)

pub AllSized-set :
    (w : ℕ) (rows : Matrix) (j : ℕ) (r : List ℕ)
    → AllSized w rows
    → length r ≡ w
    → AllSized w (set rows j r)
AllSized-set w [] j r h e = tt
AllSized-set w (q ∷ rows) zero r h e = (e, h.1)
AllSized-set w (q ∷ rows) (suc j) r h e = (h.0, AllSized-set w rows j r h.1 e)

-- What a round of the outer loop on `c` makes of the relation.
abbrev pub joined : Matrix → ℕ → ℕ → ℕ → Bool
joined rows c j k = related rows j k || (related rows j c && related rows c k)

pub related_cong :
    (old new : Matrix) (j k : ℕ) → row new j ≡ row old j → related new j k ≡ related old j k
unfolding related
related_cong old new j k e = rw e refl

-- No row behind the last one holds a number.
pub related_out : (rows : Matrix) (j k : ℕ) → length rows ≤ j → related rows j k ≡ false
unfolding related bit
related_out rows j k h = rw (get_or_out rows j [] h) (test_bit-zero_word (k % 32))

pub related-lt : (rows : Matrix) (j k : ℕ) → related rows j k ≡ true → j < length rows
related-lt rows j k e = elim (dec_lt j (length rows)) [
  | yes h ↦ h
  | no h ↦ let clash : false ≡ true = sym (related_out rows j k (omega arith)) ∙ e in absurd cc
]

absorb : (a b : Bool) → (a || (b && a)) ≡ a
absorb true b = refl
absorb false true = refl
absorb false false = refl

module _ (w c : ℕ) where
  abbrev added : ℕ → Matrix → Matrix
  added j rows = add_row c (c / 32) (c % 32) j rows

  added-true :
      (j : ℕ) (rows : Matrix)
      → related rows j c ≡ true
      → added j rows ≡ set rows j (or_words (row rows j) (row rows c))
  unfolding add_row related bit
  added-true j rows e = ground (arith, e)

  added-false : (j : ℕ) (rows : Matrix) → related rows j c ≡ false → added j rows ≡ rows
  unfolding add_row related bit
  added-false j rows e = ground (arith, e)

  length-added : (j : ℕ) (rows : Matrix) → length (added j rows) ≡ length rows
  length-added j rows = elim (Bool-cases (related rows j c)) [
    | inl e ↦ rw (added-true j rows e) (length-set rows j _)
    | inr e ↦ rw (added-false j rows e) refl
  ]

  added-AllSized :
      (j : ℕ) (rows : Matrix) → j < length rows → AllSized w rows → AllSized w (added j rows)
  added-AllSized j rows h sized = elim (Bool-cases (related rows j c)) [
    | inl e ↦ rw (added-true j rows e) (
        AllSized-set w rows j _ sized
          (length-or_words (row rows j) (row rows c) ∙ length-row w rows j sized h))
    | inr e ↦ rw (added-false j rows e) sized
  ]

  added-other :
      (j j' k : ℕ) (rows : Matrix) → j ≢ j' → related (added j rows) j' k ≡ related rows j' k
  added-other j j' k rows h = elim (Bool-cases (related rows j c)) [
    | inl e ↦ rw (added-true j rows e) (related_cong rows _ j' k (get_or-set_ne rows j j' _ [] h))
    | inr e ↦ rw (added-false j rows e) refl
  ]

  union_row :
      (j k : ℕ) (rows : Matrix)
      → j < length rows
      → c < length rows
      → AllSized w rows
      → related (set rows j (or_words (row rows j) (row rows c))) j k
        ≡ (related rows j k || related rows c k)
  unfolding related
  union_row j k rows h hc sized =
      rw (get_or-set_self rows j (or_words (row rows j) (row rows c)) [] h) (
        bit-or_words (row rows j) (row rows c) k
          (length-row w rows j sized h ∙ sym (length-row w rows c sized hc)))

  added_self :
      (j k : ℕ) (rows : Matrix)
      → j < length rows
      → c < length rows
      → AllSized w rows
      → related (added j rows) j k ≡ joined rows c j k
  added_self j k rows h hc sized = elim (Bool-cases (related rows j c)) [
    | inl e ↦ rw (added-true j rows e) (rw e (union_row j k rows h hc sized))
    | inr e ↦ rw (added-false j rows e) (rw e (sym (or_false _)))
  ]

  -- Row `c` itself does not change when it is added to itself.
  added-pivot :
      (j k : ℕ) (rows : Matrix)
      → j < length rows
      → c < length rows
      → AllSized w rows
      → related (added j rows) c k ≡ related rows c k
  added-pivot j k rows h hc sized = elim (ℕ_discrete j c) [
    | yes same ↦
        rw same (added_self c k rows hc hc sized ∙ absorb (related rows c k) (related rows c c))
    | no apart ↦ added-other j c k rows apart
  ]

  row_loop-before :
      (left j j' k : ℕ) (rows : Matrix)
      → j' < j
      → related (row_loop c (c / 32) (c % 32) left j rows) j' k ≡ related rows j' k
  unfolding row_loop
  row_loop-before zero j j' k rows h = refl
  row_loop-before (suc left) j j' k rows h =
      row_loop-before left (j + 1) j' k (added j rows) (omega arith)
      ∙ added-other j j' k rows (λ e. omega arith)

  row_loop-joined :
      (left j j' k : ℕ) (rows : Matrix)
      → j ≤ j'
      → j' < j + left
      → j + left ≡ length rows
      → c < length rows
      → AllSized w rows
      → related (row_loop c (c / 32) (c % 32) left j rows) j' k ≡ joined rows c j' k
  unfolding row_loop
  row_loop-joined zero j j' k rows lo hi total hc sized = absurd (omega arith)
  row_loop-joined (suc left) j j' k rows lo hi total hc sized = elim (ℕ_discrete j j') [
    | yes same ↦
        row_loop-before left (j + 1) j' k (added j rows) (omega arith)
        ∙ rw same (added_self j' k rows (omega arith) hc sized)
    | no apart ↦
        let rows' = added j rows in
        row_loop-joined left (j + 1) j' k rows' (omega arith) (omega arith)
          (omega (arith, length-added j rows)) (omega (arith, length-added j rows))
          (added-AllSized j rows (omega arith) sized)
        ∙ rw
            (
              added-other j j' k rows apart,
              added-other j j' c rows apart,
              added-pivot j k rows (omega arith) hc sized,
            )
            refl
  ]

  pub row_loop-sized :
      (left j : ℕ) (rows : Matrix)
      → j + left ≡ length rows
      → AllSized w rows
      → (length (row_loop c (c / 32) (c % 32) left j rows) ≡ length rows)
        × AllSized w (row_loop c (c / 32) (c % 32) left j rows)
  unfolding row_loop
  row_loop-sized zero j rows total sized = (refl, sized)
  row_loop-sized (suc left) j rows total sized =
      let (same, still) =
        row_loop-sized left (j + 1) (added j rows) (omega (arith, length-added j rows))
          (added-AllSized j rows (omega arith) sized) in
      (same ∙ length-added j rows, still)

  abbrev pub round : Matrix → Matrix
  round rows = row_loop c (c / 32) (c % 32) (length rows) 0 rows

  pub round-joined :
      (j k : ℕ) (rows : Matrix)
      → c < length rows
      → AllSized w rows
      → related (round rows) j k ≡ joined rows c j k
  round-joined j k rows hc sized = elim (dec_lt j (length rows)) [
    | yes inside ↦
        row_loop-joined (length rows) 0 j k rows (omega arith) (omega arith) (omega arith) hc sized
    | no out ↦
        related_out (round rows) j k
          (omega (arith, row_loop-sized (length rows) 0 rows (omega arith) sized))
        ∙ rw (related_out rows j k (omega arith), related_out rows j c (omega arith)) refl
  ]
