-- ===== src/Unwind/Roots/Closest.antt =====
-- Which root __find_closest_root answers.
use llc.Common.{ℕ, ◌+◌, ◌≤◌, ◌<◌, ◌≡◌, ◌≢◌, refl, arith}
use llc.Common.{false, none, some, List, [], ◌∷◌, length}
use llc.Common.{Option-cases, ◌⊎◌, inl, inr}
use llc.Unwind.Roots.{
  Root, Best, consider, is_close, close_loop, unused_loop, least_bad_loop, least_bad,
  find_closest_root,
}

-- Every root is in use and none is close to the address.
abbrev pub Crowded : ℕ → List Root → Type 0
Crowded p [] = Unit
Crowded p (r ∷ roots) = (r.low ≢ 0) × (r.low ≤ r.high) × (is_close p r ≡ false) × Crowded p roots

close_loop-Crowded : (p i : ℕ) (roots : List Root) → Crowded p roots → close_loop p i roots ≡ none
unfolding close_loop
close_loop-Crowded p i [] h = refl
close_loop-Crowded p i (r ∷ roots) (used, ordered, far, h) =
    ground (arith, close_loop-Crowded p (i + 1) roots h)

unused_loop-Crowded : (p i : ℕ) (roots : List Root) → Crowded p roots → unused_loop i roots ≡ none
unfolding unused_loop
unused_loop-Crowded p i [] h = refl
unused_loop-Crowded p i (r ∷ roots) (used, ordered, far, h) =
    ground (arith, unused_loop-Crowded p (i + 1) roots h)

close_loop-lt :
    (p i j : ℕ) (roots : List Root) → close_loop p i roots ≡ some j → j < i + length roots
unfolding close_loop
close_loop-lt p i j [] e = cc
close_loop-lt p i j (r ∷ roots) e = ground (arith, close_loop-lt p (i + 1) j roots)

unused_loop-lt : (i j : ℕ) (roots : List Root) → unused_loop i roots ≡ some j → j < i + length roots
unfolding unused_loop
unused_loop-lt i j [] e = cc
unused_loop-lt i j (r ∷ roots) e = ground (arith, unused_loop-lt (i + 1) j roots)

consider_index :
    (p : ℕ) (best : Best) (i : ℕ) (r : Root)
    → ((consider p best i r).index ≡ i) ⊎ ((consider p best i r).index ≡ best.index)
unfolding consider
consider_index p best i r = ground arith

least_bad_loop-lt :
    (p : ℕ) (best : Best) (i : ℕ) (roots : List Root)
    → best.index < i
    → least_bad_loop p best i roots < i + length roots
unfolding least_bad_loop
least_bad_loop-lt p best i [] h = omega arith
least_bad_loop-lt p best i (r ∷ roots) h =
    ground
      (arith, consider_index p best i r, least_bad_loop-lt p (consider p best i r) (i + 1) roots)

least_bad_loop-pos :
    (p : ℕ) (best : Best) (i : ℕ) (roots : List Root)
    → 0 < best.index
    → 0 < i
    → 0 < least_bad_loop p best i roots
unfolding least_bad_loop
least_bad_loop-pos p best i [] h hi = h
least_bad_loop-pos p best i (r ∷ roots) h hi =
    ground
      (arith, consider_index p best i r, least_bad_loop-pos p (consider p best i r) (i + 1) roots)

-- A root is found whenever there is one, and its index lies inside the table.
pub find_closest_root-lt :
    (p : ℕ) (roots : List Root)
    → 0 < length roots
    → (i : ℕ) × (find_closest_root p roots ≡ some i) × (i < length roots)
unfolding find_closest_root least_bad
find_closest_root-lt p [] h = absurd (omega arith)
find_closest_root-lt p (r ∷ roots) h = elim (Option-cases (close_loop p 0 (r ∷ roots))) [
  | inr (i, e) ↦ (i, ground (arith, e), omega (arith, close_loop-lt p 0 i (r ∷ roots) e))
  | inl e ↦ elim (Option-cases (unused_loop 0 (r ∷ roots))) [
    | inr (i, e') ↦ (i, ground (arith, e, e'), omega (arith, unused_loop-lt 0 i (r ∷ roots) e'))
    | inl e' ↦ (
      least_bad_loop p (record { index = 0; closest = r; distance = 0 }) 1 roots,
      ground (arith, e, e'),
      omega (
        arith,
        least_bad_loop-lt p (record { index = 0; closest = r; distance = 0 }) 1 roots (omega arith),
      ),
    )
  ]
]

consider_first :
    (p : ℕ) (best : Best) (i : ℕ) (r : Root) → best.distance ≡ 0 → (consider p best i r).index ≡ i
unfolding consider
consider_first p best i r e = ground arith

least_bad_loop_first :
    (p : ℕ) (r s : Root) (roots : List Root)
    → 0 < least_bad_loop p (record { index = 0; closest = r; distance = 0 }) 1 (s ∷ roots)
unfolding least_bad_loop
least_bad_loop_first p r s roots =
    let start : Best = record { index = 0; closest = r; distance = 0 } in
    ground
      (arith, consider_first p start 1 s refl, least_bad_loop-pos p (consider p start 1 s) 2 roots)

-- With every root in use and none close, root 0 is never answered where there are others, however
-- much nearer it is than they: the measure is taken from the root chosen before, not from `r`.
pub find_closest_root_not_first :
    (p : ℕ) (r s : Root) (roots : List Root)
    → Crowded p (r ∷ s ∷ roots)
    → find_closest_root p (r ∷ s ∷ roots) ≢ some 0
unfolding find_closest_root least_bad
find_closest_root_not_first p r s roots h e = ground (
  arith,
  close_loop-Crowded p 0 (r ∷ s ∷ roots) h,
  unused_loop-Crowded p 0 (r ∷ s ∷ roots) h,
  least_bad_loop_first p r s roots,
)
