-- ===== src/Jay/Nullable.antt =====
-- set_nullable of jay/lr0.c: the symbols that derive the empty string. `nullable` is the list of the
-- symbols' flags.
pub mod Rules
pub mod Pass
pub mod Settled
pub mod Fixpoint
use llc.Common.{ℕ, zero, suc, ◌+◌, ◌-◌}
use llc.Common.{
  Bool, true, false, ◌&&◌, not, Option, none, some, List, get_or, set, replicate, Run, done, fault,
  stuck, ltb, if◌then◌else◌,
}
use llc.Jay.Grammar.{Grammar, Entry, symbol, end_of}

-- `nullable`, `done` and `empty` while a pass goes over ritem.
pub record PassState : Type 0 where
  pub nullable : List Bool
  pub done : Bool
  pub empty : Bool

-- What a pass does at an entry: a symbol is a turn of the while loop, and an end is what follows
-- that loop, with `empty = 1` for the rule behind it.
unfoldable pub pass_entry : Grammar → PassState → Entry → PassState
pass_entry g s (symbol j) = record s { empty = s.empty && get_or s.nullable j false }
pass_entry g s (end_of r) =
    if s.empty && not (get_or s.nullable (g.rlhs r) false)
    then record { nullable = set s.nullable (g.rlhs r) true; done = false; empty = true }
    else record s { empty = true }

-- The for loop with the while loop in it, which share `i`: `left` entries from entry `i` on, of
-- which the last one ends a rule.
unfoldable pub pass_loop : Grammar → ℕ → ℕ → PassState → PassState
pass_loop g zero i s = s
pass_loop g (suc left) i s = pass_loop g left (i + 1) (pass_entry g s (g.ritem i))

-- A turn of the outer loop.
abbrev pub pass : Grammar → List Bool → PassState
pass g nullable =
    pass_loop g (g.nitems - 1) 1 (record { nullable = nullable; done = true; empty = true })

-- The outer loop, on fuel.
unfoldable pub nullable_loop : Grammar → ℕ → List Bool → Option (List Bool)
nullable_loop g zero nullable = none
nullable_loop g (suc fuel) nullable =
    let s = pass g nullable in
    let again = nullable_loop g fuel s.nullable in if s.done then some s.nullable else again

abbrev pub ends_rule : Entry → Bool
ends_rule (symbol s) = false
ends_rule (end_of r) = true

-- Where the last entry of ritem is a symbol, the while loop of the first pass reads behind it.
abbrev pub reads_behind : Grammar → Bool
reads_behind g = ltb 1 g.nitems && not (ends_rule (g.ritem (g.nitems - 1)))

-- set_nullable: each turn but the last one finds a symbol, so that nsyms + 1 turns are enough.
unfoldable pub set_nullable : Grammar → Run (List Bool)
set_nullable g =
    if reads_behind g
    then fault
    else elim (nullable_loop g (g.nsyms + 1) (replicate g.nsyms false)) [
      | none ↦ stuck
      | some nullable ↦ done nullable
    ]
