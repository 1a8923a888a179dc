-- ===== src/Unwind/Actions.antt =====
-- handleActionValue of lrt-unwind.c: the search of an action table for a catch clause.
use llc.Common.{ℕ, zero, suc, ◌+◌, ◌%◌, ◌^◌, ◌<◌, ◌≡◌, arith}
use llc.Common.{Bool, true, false, ◌&&◌, Option, none, some}
use llc.Common.{Run, done, stuck, ◌>>=◌, ltb, ◌==◌, if◌then◌else◌}
use llc.Unwind.Memory.{Memory}
use llc.Unwind.Leb.{read_sleb128}
use llc.Unwind.Lsda.{l_exception_class}

-- `typeOffset > 0` on an int64.
abbrev pub is_positive : ℕ → Bool
is_positive offset = ltb 0 offset && ltb offset (2 ^ 63)

-- `for(i = 0; 1; ++i)`: `*resultAction`, where the loop sets it. The fuel is a bound on the rounds,
-- since a table whose offsets form a circle keeps the loop running.
unfoldable pub action_loop : ℕ → Memory → ℕ → ℕ → Run (Option ℕ)
action_loop zero m action_pos i = stuck
action_loop (suc fuel) m action_pos i = do
  (type_offset, p) ← read_sleb128 m action_pos
  (action_offset, temp_action_pos) ← read_sleb128 m p
  let rest = action_loop fuel m ((p + action_offset) % 2 ^ 64) (i + 1)
  if is_positive type_offset
      then done (some (i + 1))
      else if action_offset == 0
      then done none
      else rest

-- The result, which is 1 on every path, and what is stored through `resultAction`; `target` tells
-- whether the two pointers are given.
unfoldable pub handle_action_value : ℕ → Memory → Bool → ℕ → ℕ → Run (ℕ × Option ℕ)
handle_action_value fuel m target action_entry exception_class =
    if target && exception_class == l_exception_class
    then (do stored ← action_loop fuel m action_entry 0; done (1, stored))
    else done (1, none)

-- The records from a position on: `filters` of them with no catch clause, then one that has one.
pub data Chain (m : Memory) : ℕ → ℕ → Type 0 where
  clause :
      {p q r type_offset action_offset : ℕ}
      → read_sleb128 m p ≡ done (type_offset, q)
      → read_sleb128 m q ≡ done (action_offset, r)
      → is_positive type_offset ≡ true
      → Chain m p 0
  filter :
      {p q r type_offset action_offset filters : ℕ}
      → read_sleb128 m p ≡ done (type_offset, q)
      → read_sleb128 m q ≡ done (action_offset, r)
      → is_positive type_offset ≡ false
      → (action_offset == 0) ≡ false
      → Chain m ((q + action_offset) % 2 ^ 64) filters
      → Chain m p (suc filters)

action_loop-Chain :
    (fuel : ℕ) (m : Memory) (p i filters : ℕ)
    → Chain m p filters
    → filters < fuel
    → action_loop fuel m p i ≡ done (some (i + filters + 1))
unfolding action_loop
action_loop-Chain zero m p i filters c h = absurd (omega arith)
action_loop-Chain (suc fuel) m p i filters (clause r₁ r₂ positive) h =
    rw (r₁, r₂, positive) (ground arith)
action_loop-Chain (suc fuel) m p i (suc filters)
      (filter {q = q} {action_offset = o} r₁ r₂ negative more c) h =
    rw (r₁, r₂, negative, more)
      (ground (arith, action_loop-Chain fuel m ((q + o) % 2 ^ 64) (i + 1) filters c))

-- Where a chain of action records leads to a catch clause, behind a number of records without one,
-- the routine returns 1 for an exception of L and stores the clause's place in the chain, counted
-- from 1, once it has fuel for that many rounds.
pub handle_action_value-Chain :
    (fuel : ℕ) (m : Memory) (action_entry filters : ℕ)
    → Chain m action_entry filters
    → filters < fuel
    → handle_action_value fuel m true action_entry l_exception_class ≡ done (1, some (filters + 1))
unfolding handle_action_value
handle_action_value-Chain fuel m action_entry filters c h =
    ground (arith, action_loop-Chain fuel m action_entry 0 filters c h)
