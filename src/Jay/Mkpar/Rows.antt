-- ===== src/Jay/Mkpar/Rows.antt =====
-- The order of a row of actions.
use llc.Common.{ℕ, zero, suc, ◌+◌, ◌≤◌, ◌<◌, ◌≡◌, ◌⊎◌, inl, inr, refl, arith}
use llc.Common.{
  Bool, true, false, ◌&&◌, not, Option, none, some, List, [], ◌∷◌, Bool-cases, Option-cases, ltb,
  ◌==◌,
}
use native.Mathlib.Decide.{ℕ_discrete}
use llc.Jay.Mkpar.{
  shift, token, Action, is_shift, Tables, shift_action, shift_loop, get_shifts, reduce_action,
  insert_reduction, insert_after_shifts, insert_action, add_reduce, looks_ahead, token_loop,
  lookahead_loop, add_reductions, parse_actions,
}

-- One action stands before another: by symbol, a shift before reductions, and these by rule.
abbrev pub Before : Action → Action → Type 0
Before a b =
    (a.symbol < b.symbol)
    ⊎ ((a.symbol ≡ b.symbol)
        × ((is_shift a ≡ true) ⊎ ((is_shift b ≡ false) × (a.number ≤ b.number))))

-- `a` stands before the row, if there is one, and the row is in order.
abbrev pub IsSortedFrom : Action → List Action → Type 0
IsSortedFrom a [] = Unit
IsSortedFrom a (b ∷ actions) = Before a b × IsSortedFrom b actions

abbrev pub IsSorted : List Action → Type 0
IsSorted [] = Unit
IsSorted (a ∷ actions) = IsSortedFrom a actions

-- The head of the row, if there is one, is no lower, and no shift on the same symbol.
abbrev Above : Action → List Action → Type 0
Above temp [] = Unit
Above temp (b ∷ actions) = (temp.symbol ≤ b.symbol) × (b.symbol ≡ temp.symbol → is_shift b ≡ false)

abbrev Least : Action → List Action → Type 0
Least temp [] = Unit
Least temp (b ∷ actions) = temp.symbol ≤ b.symbol

abbrev passes : Action → Action → Bool
passes temp b = b.symbol == temp.symbol && (not (is_shift b) && ltb b.number temp.number)

passed :
    (temp b : Action)
    → passes temp b ≡ true
    → (b.symbol ≡ temp.symbol) × (is_shift b ≡ false) × (b.number < temp.number)
passed temp b e = ground (arith, e)

passed-Before : (temp b : Action) → is_shift temp ≡ false → passes temp b ≡ true → Before b temp
passed-Before temp b h e = let (same, red, lt) = passed temp b e in inr (same, inr (h, omega arith))

in_order :
    (temp b : Action)
    → b.symbol ≡ temp.symbol
    → is_shift b ≡ false
    → passes temp b ≡ false
    → temp.number ≤ b.number
in_order temp b same red e = ground (arith, same, red, e)

stopped-Before :
    (temp b : Action)
    → is_shift temp ≡ false
    → (temp.symbol ≤ b.symbol) × (b.symbol ≡ temp.symbol → is_shift b ≡ false)
    → passes temp b ≡ false
    → Before temp b
stopped-Before temp b h (low, red) e = elim (ℕ_discrete b.symbol temp.symbol) [
  | yes same ↦ inr (omega arith, inr (red same, in_order temp b same (red same) e))
  | no differ ↦ inl (omega arith)
]

passed-Above :
    (temp b : Action) (actions : List Action)
    → passes temp b ≡ true
    → IsSortedFrom b actions
    → Above temp actions
passed-Above temp b [] e sorted = tt
passed-Above temp b (c ∷ actions) e (inl up, sorted) =
    let (same, red, lt) = passed temp b e in (omega arith, λ e'. absurd (omega arith))
passed-Above temp b (c ∷ actions) e (inr (eq, inl is), sorted) =
    let (same, red, lt) = passed temp b e in cc (is, red)
passed-Above temp b (c ∷ actions) e (inr (eq, inr (red', le)), sorted) =
    let (same, red, lt) = passed temp b e in (omega arith, λ e'. red')

insert_reduction-IsSortedFrom :
    (a temp : Action) (actions : List Action)
    → is_shift temp ≡ false
    → Before a temp
    → IsSortedFrom a actions
    → Above temp actions
    → IsSortedFrom a (insert_reduction temp actions)
unfolding insert_reduction
insert_reduction-IsSortedFrom a temp [] h before sorted above = (before, tt)
insert_reduction-IsSortedFrom a temp (b ∷ actions) h before (ab, sorted) above =
    elim (Bool-cases (passes temp b)) [
      | inl e ↦ rw e (
        ab,
        insert_reduction-IsSortedFrom b temp actions h (passed-Before temp b h e) sorted
            (passed-Above temp b actions e sorted),
      )
      | inr e ↦ rw e (before, (stopped-Before temp b h above e, sorted))
    ]

abbrev skips : Action → Action → Bool
skips temp b = b.symbol == temp.symbol && is_shift b

skipped-Before : (temp b : Action) → skips temp b ≡ true → Before b temp
skipped-Before temp b e =
    let parts : (b.symbol ≡ temp.symbol) × (is_shift b ≡ true) = ground (arith, e) in
    inr (parts.0, inl parts.1)

not_skipped : (temp b : Action) → skips temp b ≡ false → b.symbol ≡ temp.symbol → is_shift b ≡ false
not_skipped temp b e same = ground (arith, e, same)

skipped-Least :
    (temp b : Action) (actions : List Action)
    → skips temp b ≡ true
    → IsSortedFrom b actions
    → Least temp actions
skipped-Least temp b [] e sorted = tt
skipped-Least temp b (c ∷ actions) e (inl up, sorted) =
    let same : b.symbol ≡ temp.symbol = ground (arith, e) in omega arith
skipped-Least temp b (c ∷ actions) e (inr (eq, _), sorted) =
    let same : b.symbol ≡ temp.symbol = ground (arith, e) in omega arith

insert_after_shifts-IsSortedFrom :
    (a temp : Action) (actions : List Action)
    → is_shift temp ≡ false
    → Before a temp
    → IsSortedFrom a actions
    → Least temp actions
    → IsSortedFrom a (insert_after_shifts temp actions)
unfolding insert_after_shifts
insert_after_shifts-IsSortedFrom a temp [] h before sorted least = (before, tt)
insert_after_shifts-IsSortedFrom a temp (b ∷ actions) h before (ab, sorted) least =
    elim (Bool-cases (skips temp b)) [
      | inl e ↦ rw e (
        ab,
        insert_after_shifts-IsSortedFrom b temp actions h (skipped-Before temp b e) sorted
            (skipped-Least temp b actions e sorted),
      )
      | inr e ↦ rw e (
          insert_reduction-IsSortedFrom a temp (b ∷ actions) h before (ab, sorted)
            (least, not_skipped temp b e))
    ]

insert_action-IsSortedFrom :
    (a temp : Action) (actions : List Action)
    → is_shift temp ≡ false
    → Before a temp
    → IsSortedFrom a actions
    → IsSortedFrom a (insert_action temp actions)
unfolding insert_action
insert_action-IsSortedFrom a temp [] h before sorted = (before, tt)
insert_action-IsSortedFrom a temp (b ∷ actions) h before (ab, sorted) =
    elim (Bool-cases (ltb b.symbol temp.symbol)) [
      | inl e ↦
          rw e (ab, insert_action-IsSortedFrom b temp actions h (inl (ground (arith, e))) sorted)
      | inr e ↦ rw e (
          insert_after_shifts-IsSortedFrom a temp (b ∷ actions) h before (ab, sorted)
            (ground (arith, e)))
    ]

-- An action that stands before every other.
abbrev lowest : Action
lowest = record {
  symbol = 0;
  number = 0;
  prec = 0;
  action_code = shift;
  assoc = token;
  suppressed = 0;
}

lowest-Before : (b : Action) → Before lowest b
lowest-Before b = elim (ℕ_discrete b.symbol 0) [
  | yes same ↦ inr (omega arith, inl refl)
  | no differ ↦ inl (omega arith)
]

to_lowest : (actions : List Action) → IsSorted actions → IsSortedFrom lowest actions
to_lowest [] sorted = tt
to_lowest (b ∷ actions) sorted = (lowest-Before b, sorted)

from_any : (a : Action) (actions : List Action) → IsSortedFrom a actions → IsSorted actions
from_any a [] sorted = tt
from_any a (b ∷ actions) sorted = sorted.1

-- add_reduce keeps a row in order.
pub add_reduce-IsSorted :
    (g : Tables) (actions : List Action) (ruleno symbol : ℕ)
    → IsSorted actions
    → IsSorted (add_reduce g actions ruleno symbol)
add_reduce-IsSorted g actions ruleno symbol sorted = from_any lowest _ (
    insert_action-IsSortedFrom lowest (reduce_action g ruleno symbol) actions refl
      (lowest-Before (reduce_action g ruleno symbol)) (to_lowest actions sorted))

token_loop-IsSorted :
    (g : Tables) (i j : ℕ) (actions : List Action)
    → IsSorted actions
    → IsSorted (token_loop g i j actions)
unfolding token_loop
token_loop-IsSorted g i zero actions sorted = sorted
token_loop-IsSorted g i (suc j) actions sorted = elim (Bool-cases (looks_ahead g i j)) [
  | inl e ↦
      rw e (token_loop-IsSorted g i j _ (add_reduce-IsSorted g actions (g.la_ruleno i) j sorted))
  | inr e ↦ rw e (token_loop-IsSorted g i j actions sorted)
]

lookahead_loop-IsSorted :
    (g : Tables) (i count : ℕ) (actions : List Action)
    → IsSorted actions
    → IsSorted (lookahead_loop g i count actions)
unfolding lookahead_loop
lookahead_loop-IsSorted g i zero actions sorted = sorted
lookahead_loop-IsSorted g i (suc count) actions sorted =
    lookahead_loop-IsSorted g (i + 1) count _ (token_loop-IsSorted g i g.ntokens actions sorted)

-- The accessing symbols of the targets do not fall, from `s` on.
abbrev pub Rises : Tables → ℕ → List ℕ → Type 0
Rises g s [] = Unit
Rises g s (k ∷ to_state) = (s ≤ g.accessing_symbol k) × Rises g (g.accessing_symbol k) to_state

Rises-weaken :
    (g : Tables) (s t : ℕ) (to_state : List ℕ) → s ≤ t → Rises g t to_state → Rises g s to_state
Rises-weaken g s t [] h rises = tt
Rises-weaken g s t (k ∷ to_state) h (low, rises) = (omega arith, rises)

shift_loop-IsSortedFrom :
    (g : Tables) (a : Action) (to_state : List ℕ)
    → is_shift a ≡ true
    → Rises g a.symbol to_state
    → IsSortedFrom a (shift_loop g to_state)
unfolding shift_loop
shift_loop-IsSortedFrom g a [] h rises = tt
shift_loop-IsSortedFrom g a (k ∷ to_state) h (low, rises) =
    elim (Bool-cases (ltb (g.accessing_symbol k) g.start_symbol)) [
      | inl e ↦ rw e (elim (ℕ_discrete a.symbol (g.accessing_symbol k)) [
        | yes same ↦
            (inr (same, inl h), shift_loop-IsSortedFrom g (shift_action g k) to_state refl rises)
        | no differ ↦
            (inl (omega arith), shift_loop-IsSortedFrom g (shift_action g k) to_state refl rises)
      ])
      | inr e ↦
          rw e
            (shift_loop-IsSortedFrom g a to_state h (Rises-weaken g a.symbol _ to_state low rises))
    ]

-- The targets of a state's shifts are in order of their accessing symbols.
abbrev pub ShiftsRise : Tables → Option (List ℕ) → Type 0
ShiftsRise g none = Unit
ShiftsRise g (some to_state) = Rises g 0 to_state

get_shifts-none :
    (g : Tables) (stateno : ℕ) → g.shift_table stateno ≡ none → get_shifts g stateno ≡ []
unfolding get_shifts
get_shifts-none g stateno e = ground (arith, e)

get_shifts-some :
    (g : Tables) (stateno : ℕ) (to_state : List ℕ)
    → g.shift_table stateno ≡ some to_state
    → get_shifts g stateno ≡ shift_loop g to_state
unfolding get_shifts
get_shifts-some g stateno to_state e = ground (arith, e)

get_shifts-IsSorted :
    (g : Tables) (stateno : ℕ)
    → ShiftsRise g (g.shift_table stateno)
    → IsSorted (get_shifts g stateno)
get_shifts-IsSorted g stateno h = elim (Option-cases (g.shift_table stateno)) [
  | inl e ↦ rw (get_shifts-none g stateno e) tt
  | inr (to_state, e) ↦
      rw (get_shifts-some g stateno to_state e)
        (from_any lowest _ (shift_loop-IsSortedFrom g lowest to_state refl (rw e at h)))
]

-- Where the targets of a state's shifts are in order of their accessing symbols, the state's row is in
-- order: by symbol, on each symbol the shifts before the reductions, and these by their rules.
pub parse_actions-IsSorted :
    (g : Tables) (stateno : ℕ)
    → ShiftsRise g (g.shift_table stateno)
    → IsSorted (parse_actions g stateno)
unfolding parse_actions add_reductions
parse_actions-IsSorted g stateno h =
    lookahead_loop-IsSorted g _ _ _ (get_shifts-IsSorted g stateno h)
