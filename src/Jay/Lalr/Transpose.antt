-- ===== src/Jay/Lalr/Transpose.antt =====
-- transpose turns the edges of a relation round.
use llc.Common.{ℕ, zero, suc, ◌+◌, ◌≤◌, ◌<◌, ◌≡◌, ◌↔◌, inl, inr, refl, sym, subst, arith}
use llc.Common.{
  true, List, [], ◌∷◌, length, done, get_or, get_or_out, ==_refl, ==_ne, ◌==◌, if◌then◌else◌, Among,
  Among-append, Among-append_left, Among-append_right,
}
use native.Mathlib.Decide.{ℕ_discrete, dec_lt}
use llc.Jay.Grammar.{maxshort}
use llc.Jay.Relations.{transpose}
use llc.Jay.Lalr.Sources.{turned, occurrences, sources, turned-sources, length-turned}
use llc.Jay.Lalr.Filling.{transpose-turned}

Among-occurrences :
    (x j i : ℕ) (edges : List ℕ) → Among x (occurrences j i edges) → (i ≡ x) × Among j edges
unfolding occurrences
Among-occurrences x j i [] m = elim m [ ]
Among-occurrences x j i (k ∷ edges) m = elim (ℕ_discrete k j) [
  | yes same ↦
      let here : Among x (i ∷ occurrences j i edges) =
        subst (λ b. Among x (if b then i ∷ occurrences j i edges else occurrences j i edges))
          (subst (λ z. (k == z) ≡ true) same (==_refl k)) m in
      elim here [
        | inl e ↦ (e, inl same)
        | inr later ↦ ((Among-occurrences x j i edges later).0, inl same)
      ]
  | no ne ↦
      let later : Among x (occurrences j i edges) =
        subst (λ b. Among x (if b then i ∷ occurrences j i edges else occurrences j i edges))
          (==_ne k j ne) m in
      let (e, rest) = Among-occurrences x j i edges later in (e, inr rest)
]

occurrences-Among : (j i : ℕ) (edges : List ℕ) → Among j edges → Among i (occurrences j i edges)
unfolding occurrences
occurrences-Among j i [] m = elim m [ ]
occurrences-Among j i (k ∷ edges) m = elim (ℕ_discrete k j) [
  | yes same ↦ rw (same, ==_refl j) (inl refl)
  | no ne ↦ elim m [
    | inl e ↦ absurd (ne e)
    | inr later ↦ rw (==_ne k j ne) (occurrences-Among j i edges later)
  ]
]

Among-sources :
    (x j i : ℕ) (r : List (List ℕ))
    → Among x (sources j i r)
    → (m : ℕ) × (i + m ≡ x) × Among j (get_or r m [])
unfolding sources
Among-sources x j i [] m = elim m [ ]
Among-sources x j i (edges ∷ r) m =
    elim (Among-append x (occurrences j i edges) (sources j (i + 1) r) m) [
      | inl now ↦ let (e, edge) = Among-occurrences x j i edges now in (0, omega (arith, e), edge)
      | inr later ↦
          let (m, e, edge) = Among-sources x j (i + 1) r later in (suc m, omega (arith, e), edge)
    ]

sources-Among :
    (m j i : ℕ) (r : List (List ℕ)) → Among j (get_or r m []) → Among (i + m) (sources j i r)
unfolding sources
sources-Among m j i [] edge = elim edge [ ]
sources-Among zero j i (edges ∷ r) edge =
    let e : i ≡ i + 0 = omega arith in
    Among-append_left (i + 0) (occurrences j i edges) (sources j (i + 1) r)
      (subst (λ x. Among x (occurrences j i edges)) e (occurrences-Among j i edges edge))
sources-Among (suc m) j i (edges ∷ r) edge =
    let e : i + 1 + m ≡ i + suc m = omega arith in
    Among-append_right (i + suc m) (occurrences j i edges) (sources j (i + 1) r)
      (subst (λ x. Among x (sources j (i + 1) r)) e (sources-Among m j (i + 1) r edge))

-- For a number below n, turned lists exactly the numbers whose lists it stands in.
pub turned-converse :
    (r : List (List ℕ)) (n i j : ℕ)
    → j < n
    → Among i (get_or (turned r n) j []) ↔ Among j (get_or r i [])
turned-converse r n i j lt = (
  λ m.
      let (p, e, edge) =
        Among-sources i j 0 r (subst (λ xs. Among i xs) (turned-sources r n j lt) m) in
      let same : p ≡ i = omega (arith, e) in subst (λ k. Among j (get_or r k [])) same edge,
  λ edge.
      let e : 0 + i ≡ i = omega arith in
      subst (λ xs. Among i xs) (sym (turned-sources r n j lt))
        (subst (λ k. Among k (sources j 0 r)) e (sources-Among i j 0 r edge)),
)

-- A number in a list of turned is that of a list.
pub turned-lt :
    (r : List (List ℕ)) (n i j : ℕ) → Among j (get_or (turned r n) i []) → (i < n) × (j < length r)
turned-lt r n i j m = elim (dec_lt i n) [
  | no out ↦
      let size = length-turned r n in
      elim (subst (λ xs. Among j xs) (get_or_out (turned r n) i [] (omega (arith, size))) m) [ ]
  | yes lt ↦ elim (dec_lt j (length r)) [
    | yes inside ↦ (lt, inside)
    | no out ↦
        elim (subst (λ xs. Among i xs) (get_or_out r j [] (omega arith))
          ((turned-converse r n j i lt).0 m)) [ ]
  ]
]

-- On a relation between `n` numbers, of which none stands in the lists more than MAXSHORT times,
-- transpose ends, and the list that it leaves for a number has exactly the numbers in whose lists
-- that number stands.
pub transpose-converse :
    (r : List (List ℕ)) (n : ℕ)
    → length r ≡ n
    → ((i j : ℕ) → Among j (get_or r i []) → j < n)
    → ((j : ℕ) → j < n → length (sources j 0 r) ≤ maxshort)
    → (new_r : List (List ℕ)) × (transpose r n ≡ done new_r)
      × ((i j : ℕ) → j < n → Among i (get_or new_r j []) ↔ Among j (get_or r i []))
transpose-converse r n size inside few =
    (turned r n, transpose-turned r n size inside few, turned-converse r n)
