-- ===== src/Jay/Grammar/Derives.antt =====
-- The rules of a variable.
use llc.Common.{ℕ, zero, suc, ◌+◌, ◌≤◌, ◌<◌, ◌≡◌, ◌↔◌, inl, inr, refl, arith}
use native.Mathlib.Decide.{ℕ_discrete}
use llc.Common.{==_refl, ==_ne, Among}
use llc.Jay.Grammar.{Grammar, derives_loop, derives}

derives_loop_sound :
    (g : Grammar) (lhs left i r : ℕ)
    → Among r (derives_loop g lhs left i)
    → (i ≤ r) × (r < i + left) × (g.rlhs r ≡ lhs)
unfolding derives_loop
derives_loop_sound g lhs zero i r m = elim m [ ]
derives_loop_sound g lhs (suc left) i r m = elim (ℕ_discrete (g.rlhs i) lhs) [
  | yes e ↦ elim (rw (e, ==_refl lhs) at m) [
    | inl here ↦ (omega arith, omega arith, rw here at e)
    | inr later ↦
        let (lo, hi, e') = derives_loop_sound g lhs left (i + 1) r later in
        (omega arith, omega arith, e')
  ]
  | no ne ↦
      let (lo, hi, e') =
        derives_loop_sound g lhs left (i + 1) r (rw (==_ne (g.rlhs i) lhs ne) at m) in
      (omega arith, omega arith, e')
]

derives_loop-full :
    (g : Grammar) (lhs left i r : ℕ)
    → i ≤ r
    → r < i + left
    → g.rlhs r ≡ lhs
    → Among r (derives_loop g lhs left i)
unfolding derives_loop
derives_loop-full g lhs zero i r lo hi e = absurd (omega arith)
derives_loop-full g lhs (suc left) i r lo hi e = elim (ℕ_discrete i r) [
  | yes same ↦ rw (same, e, ==_refl lhs) (inl refl)
  | no apart ↦
      let later = derives_loop-full g lhs left (i + 1) r (omega arith) (omega arith) e in
      elim (ℕ_discrete (g.rlhs i) lhs) [
        | yes e' ↦ rw (e', ==_refl lhs) (inr later)
        | no ne ↦ rw (==_ne (g.rlhs i) lhs ne) later
      ]
]

-- The rules of a variable are those with it on the left.
pub derives-Among :
    (g : Grammar) (lhs r : ℕ) → Among r (derives g lhs) ↔ ((r < g.nrules) × (g.rlhs r ≡ lhs))
unfolding derives
derives-Among g lhs r = (
  λ m. let (lo, hi, e) = derives_loop_sound g lhs g.nrules 0 r m in (omega arith, e),
  λ (h, e). derives_loop-full g lhs g.nrules 0 r (omega arith) (omega arith) e,
)
