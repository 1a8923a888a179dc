-- ===== src/Jay/Mkpar/Unique.antt =====
-- What remove_conflicts does to a row.
use llc.Common.{ℕ, ◌+◌, ◌≤◌, ◌<◌, ◌≡◌, ◌≢◌, refl, arith}
use llc.Common.{Bool, ◌&&◌, List, [], ◌∷◌, ◌==◌, if◌then◌else◌}
use llc.Common.{inl, inr}
use llc.Jay.Mkpar.Rows.{IsSortedFrom, IsSorted, ShiftsRise, parse_actions-IsSorted}
use llc.Jay.Mkpar.{Tables, parse_actions, Action, suppress, is_live, Resolved, resolve, resolve_row}

-- The live actions on a symbol.
abbrev live_on : ℕ → Action → ℕ
live_on s a = if a.symbol == s && is_live a then 1 else 0

unfoldable pub live_count : ℕ → List Action → ℕ
live_count s [] = 0
live_count s (a ∷ actions) = live_on s a + live_count s actions

-- The symbols do not fall, from `s` on.
abbrev pub Ascends : ℕ → List Action → Type 0
Ascends s [] = Unit
Ascends s (a ∷ actions) = (s ≤ a.symbol) × Ascends a.symbol actions

abbrev counted : ℕ → Resolved → ℕ
counted s r = live_on s r.pref + live_count s r.rest

-- No action below the preferred one's symbol is in the row.
resolve_below :
    (s : ℕ) (is_final : Bool) (pref : Action) (actions : List Action)
    → Ascends pref.symbol actions
    → s < pref.symbol
    → counted s (resolve is_final pref actions) ≡ 0
unfolding resolve live_count
resolve_below s is_final pref [] up h = ground arith
resolve_below s is_final pref (p ∷ actions) (low, up) h =
    let new = resolve_below s is_final p actions up (omega arith) in
    let old =
      λ (e : p.symbol ≡ pref.symbol). resolve_below s is_final pref actions (rw (← e) up) h in
    let gone = λ (e : p.symbol ≡ pref.symbol).
      resolve_below s is_final (suppress 2 pref) actions (rw (← e) up) h in
    ground (arith, new, old, gone)

resolve_once :
    (s : ℕ) (is_final : Bool) (pref : Action) (actions : List Action)
    → Ascends pref.symbol actions
    → counted s (resolve is_final pref actions) ≤ 1
unfolding resolve live_count
resolve_once s is_final pref [] up = ground arith
resolve_once s is_final pref (p ∷ actions) (low, up) =
    let new = resolve_once s is_final p actions up in
    let apart = λ (h : s < p.symbol). resolve_below s is_final p actions up h in
    let old = λ (e : p.symbol ≡ pref.symbol). resolve_once s is_final pref actions (rw (← e) up) in
    let gone = λ (e : p.symbol ≡ pref.symbol).
      resolve_once s is_final (suppress 2 pref) actions (rw (← e) up) in
    ground (arith, new, apart, old, gone)

IsSortedFrom-Ascends :
    (a : Action) (actions : List Action) → IsSortedFrom a actions → Ascends a.symbol actions
IsSortedFrom-Ascends a [] sorted = tt
IsSortedFrom-Ascends a (b ∷ actions) (inl up, sorted) =
    (omega arith, IsSortedFrom-Ascends b actions sorted)
IsSortedFrom-Ascends a (b ∷ actions) (inr (e, _), sorted) =
    (omega arith, IsSortedFrom-Ascends b actions sorted)

-- Of a row in order at most one action on each symbol is left unsuppressed.
pub resolve_row_unique :
    (is_final : Bool) (row : List Action) (s : ℕ)
    → IsSorted row
    → live_count s (resolve_row is_final row).0 ≤ 1
unfolding resolve_row live_count
resolve_row_unique is_final [] s sorted = omega arith
resolve_row_unique is_final (pref ∷ actions) s sorted =
    resolve_once s is_final pref actions (IsSortedFrom-Ascends pref actions sorted)

-- Where the targets of a state's shifts are in order of their accessing symbols, the row that is built
-- for the state has, once its conflicts are removed, at most one unsuppressed action on each symbol.
pub parse_actions_unique :
    (g : Tables) (stateno s : ℕ) (is_final : Bool)
    → ShiftsRise g (g.shift_table stateno)
    → live_count s (resolve_row is_final (parse_actions g stateno)).0 ≤ 1
parse_actions_unique g stateno s is_final h =
    resolve_row_unique is_final (parse_actions g stateno) s (parse_actions-IsSorted g stateno h)

-- The actions that are suppressed by a conflict, with the mark 1.
abbrev marked : Action → ℕ
marked a = if a.suppressed == 1 then 1 else 0

unfoldable pub marked_count : List Action → ℕ
marked_count [] = 0
marked_count (a ∷ actions) = marked a + marked_count actions

abbrev pub AllLive : List Action → Type 0
AllLive [] = Unit
AllLive (a ∷ actions) = (a.suppressed ≡ 0) × AllLive actions

resolve_marks :
    (is_final : Bool) (pref : Action) (actions : List Action)
    → pref.suppressed ≢ 1
    → AllLive actions
    → marked (resolve is_final pref actions).pref
        + marked_count (resolve is_final pref actions).rest
      ≡ (resolve is_final pref actions).sr_count + (resolve is_final pref actions).rr_count
unfolding resolve marked_count
resolve_marks is_final pref [] h live = ground arith
resolve_marks is_final pref (p ∷ actions) h (fresh, live) = ground (
  arith,
  resolve_marks is_final p actions (omega arith) live,
  resolve_marks is_final pref actions h live,
  resolve_marks is_final (suppress 2 pref) actions (omega arith) live,
)

-- In a row none of whose actions is suppressed, as many are marked 1 as conflicts are counted, of
-- either kind.
pub resolve_row-counts :
    (is_final : Bool) (row : List Action)
    → AllLive row
    → marked_count (resolve_row is_final row).0
      ≡ (resolve_row is_final row).1 + (resolve_row is_final row).2
unfolding resolve_row marked_count
resolve_row-counts is_final [] live = refl
resolve_row-counts is_final (pref ∷ actions) (fresh, live) =
    resolve_marks is_final pref actions (omega arith) live
