-- ===== src/Jay/Vectors/Match.antt =====
-- matching_vector answers an earlier vector with the same entries.
use llc.Common.{ℕ, ◌*◌, ◌≡◌, inl, inr, refl, ap}
use llc.Common.{
  true, false, ◌&&◌, both_true, Bool-cases, none, some, List, [], ◌∷◌, leb, ◌==◌, ==_iff, Among,
}
use llc.Jay.Vectors.{Vector, tally, same_entries, match_loop, matching_vector}

same_entries_lem : (xs ys : List (ℕ × ℕ)) → same_entries xs ys ≡ true → xs ≡ ys
unfolding same_entries
same_entries_lem [] [] e = refl
same_entries_lem [] (y ∷ ys) e = absurd cc
same_entries_lem (x ∷ xs) [] e = absurd cc
same_entries_lem ((f, t) ∷ xs) ((f', t') ∷ ys) e = elim (Bool-cases (f == f' && t == t')) [
  | inl both ↦
      let (a, b) = both_true (f == f') (t == t') both in
      let f_same = (==_iff f f').0 a in
      let t_same = (==_iff t t').0 b in
      let rest = same_entries_lem xs ys (rw both at e) in rw (f_same, t_same, rest) refl
  | inr apart ↦ let clash : false ≡ true = rw apart at e in absurd cc
]

-- Vector `j` is one of those before vector `i`, and has its entries.
abbrev pub Matches : (ℕ → Vector) → ℕ → List ℕ → ℕ → Type 0
Matches v i before j = Among j before × ((v j).entries ≡ (v i).entries)

match_loop-Matches :
    (v : ℕ → Vector) (i : ℕ) (before : List ℕ) (j : ℕ)
    → match_loop v i before ≡ some j
    → Matches v i before j
unfolding match_loop
match_loop-Matches v i [] j e = absurd cc
match_loop-Matches v i (k ∷ before) j e =
    elim (Bool-cases ((v k).width == (v i).width && tally (v k) == tally (v i))) [
      | inr unlike ↦ let clash : none ≡ some j = rw unlike at e in absurd cc
      | inl like ↦ elim (Bool-cases (same_entries (v k).entries (v i).entries)) [
        | inl same ↦
            let e' : some k ≡ some j = rw (like, same) at e in
            let kj : k ≡ j = cc in
            (
              inl kj,
              rw (ap (λ x. (v x).entries) kj) at
                  (same_entries_lem (v k).entries (v i).entries same),
            )
        | inr differ ↦
            let (m, q) = match_loop-Matches v i before j (rw (like, differ) at e) in (inr m, q)
      ]
    ]

pub matching_vector-Matches :
    (v : ℕ → Vector) (nstates i : ℕ) (before : List ℕ) (j : ℕ)
    → matching_vector v nstates i before ≡ some j
    → Matches v i before j
unfolding matching_vector
matching_vector-Matches v nstates i before j e = elim (Bool-cases (leb (2 * nstates) i)) [
  | inl column ↦ let clash : none ≡ some j = rw column at e in absurd cc
  | inr row ↦ match_loop-Matches v i before j (rw row at e)
]
