-- ===== src/Jay/Mkpar/Defaults.antt =====
-- sole_reduction, which finds the default reduction of a state.
use llc.Common.{ℕ, ◌+◌, ◌<◌, ◌≡◌, ◌≢◌, ◌⊎◌, inl, inr, refl, arith}
use llc.Common.{true, false, List, [], ◌∷◌, ◌==◌, if◌then◌else◌}
use llc.Jay.Mkpar.{Action, is_live, is_shift, sole_loop, sole_reduction}

-- The unsuppressed actions are reductions by the rule `r`.
abbrev pub OnlyReduces : ℕ → List Action → Type 0
OnlyReduces r [] = Unit
OnlyReduces r (a ∷ actions) =
    (is_live a ≡ true → (is_shift a ≡ false) × (a.number ≡ r)) × OnlyReduces r actions

-- One of them is on a symbol other than 1, the token `error`.
abbrev pub HasLive : List Action → Type 0
HasLive [] = ⊥
HasLive (a ∷ actions) = ((is_live a ≡ true) × (a.symbol ≢ 1)) ⊎ HasLive actions

abbrev pub AllPositive : List Action → Type 0
AllPositive [] = Unit
AllPositive (a ∷ actions) = (0 < a.number) × AllPositive actions

sole_loop-OnlyReduces :
    (count ruleno r : ℕ) (actions : List Action)
    → AllPositive actions
    → 0 < r
    → sole_loop count ruleno actions ≡ r
    → OnlyReduces r actions × (0 < ruleno → ruleno ≡ r) × ((0 < count) ⊎ HasLive actions)
unfolding sole_loop
sole_loop-OnlyReduces count ruleno r [] pos h e = ground (arith, e)
sole_loop-OnlyReduces count ruleno r (p ∷ actions) (number, pos) h e =
    let skip = λ (e' : sole_loop count ruleno actions ≡ r).
      sole_loop-OnlyReduces count ruleno r actions pos h e' in
    let take = λ (e' : sole_loop (if p.symbol == 1 then count else count + 1) p.number actions ≡ r).
      sole_loop-OnlyReduces (if p.symbol == 1 then count else count + 1) p.number r actions pos h
        e' in
    ground (arith, skip, take, e)

sole_loop-finds :
    (count ruleno r : ℕ) (actions : List Action)
    → 0 < r
    → OnlyReduces r actions
    → (ruleno ≡ 0) ⊎ (ruleno ≡ r)
    → ((0 < count) × (ruleno ≡ r)) ⊎ HasLive actions
    → sole_loop count ruleno actions ≡ r
unfolding sole_loop
sole_loop-finds count ruleno r [] h only start some_live = ground arith
sole_loop-finds count ruleno r (p ∷ actions) h (here, only) start some_live = ground (
  arith,
  sole_loop-finds count ruleno r actions h only start,
  sole_loop-finds count p.number r actions h only,
  sole_loop-finds (count + 1) p.number r actions h only,
)

-- In a row whose actions have positive numbers, a rule other than 0 that is answered is that of every
-- unsuppressed action, all of them are reductions, and one of them is on a symbol other than 1.
pub sole_reduction-OnlyReduces :
    (actions : List Action)
    → AllPositive actions
    → 0 < sole_reduction actions
    → OnlyReduces (sole_reduction actions) actions × HasLive actions
unfolding sole_reduction
sole_reduction-OnlyReduces actions pos h =
    let (only, start, some_live) =
      sole_loop-OnlyReduces 0 0 (sole_loop 0 0 actions) actions pos h refl in
    (only, elim some_live [ inl none_counted ↦ absurd (omega arith) | inr live ↦ live ])

-- Where the unsuppressed actions of a row are reductions by one positive rule, and one of them is on a
-- symbol other than 1, that rule is answered.
pub sole_reduction-finds :
    (r : ℕ) (actions : List Action)
    → 0 < r
    → OnlyReduces r actions
    → HasLive actions
    → sole_reduction actions ≡ r
unfolding sole_reduction
sole_reduction-finds r actions h only live =
    sole_loop-finds 0 0 r actions h only (inl refl) (inr live)
