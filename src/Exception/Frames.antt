-- ===== src/Exception/Frames.antt =====
-- unwindFrame and unwindStack of lrt-exception.c, in the configuration B64. Of the registers only
-- those are kept that an unwound frame restores; clearRegisters leaves the others 0.
pub mod Total
use llc.Common.{ℕ, zero, suc, ◌+◌, ◌-◌, ◌*◌, ◌/◌, ◌%◌, ◌^◌}
use llc.Common.{Bool, true, false, not, ◌||◌, Option, none, some, List, [], ◌∷◌, get_elem?, set}
use llc.Common.{Run, done, fault, stuck, ◌>>=◌, ltb, leb, ◌==◌, if◌then◌else◌}
use llc.Exception.Words.{Words, load_word}
use llc.Exception.Tables.{UnwindRecord}
use llc.Exception.Cache.{BacktraceRecord, State, find_unwind_info}

pub record Registers : Type 0 where
  pub rbp : ℕ
  pub rbx : ℕ
  pub r12 : ℕ
  pub r13 : ℕ
  pub r14 : ℕ
  pub r15 : ℕ

abbrev pub cleared : Registers
cleared = record { rbp = 0; rbx = 0; r12 = 0; r13 = 0; r14 = 0; r15 = 0 }

-- `if( flags & mask ) r->reg = *--stack`, for a mask of one bit: the register and `stack`.
unfoldable pub restore : Words → ℕ → ℕ → ℕ → ℕ → Run (ℕ × ℕ)
restore m flags mask stack old =
    if flags / mask % 2 == 1
    then (do
      value ← load_word m ((stack + (2 ^ 64 - 8)) % 2 ^ 64)
      done (value, (stack + (2 ^ 64 - 8)) % 2 ^ 64))
    else done (old, stack)

unfoldable pub unwind_frame : Words → ℕ → ℕ → Registers → Run Registers
unwind_frame m rbp flags r = do
  saved ← load_word m rbp
  (rbx, s₁) ← restore m flags 0x4 rbp r.rbx
  (r12, s₂) ← restore m flags 0x2000 s₁ r.r12
  (r13, s₃) ← restore m flags 0x4000 s₂ r.r13
  (r14, s₄) ← restore m flags 0x8000 s₃ r.r14
  (r15, s₅) ← restore m flags 0x10000 s₄ r.r15
  done (record { rbp = saved; rbx = rbx; r12 = r12; r13 = r13; r14 = r14; r15 = r15 })

-- The locals of unwindStack, with the backtrace that it fills and the state of the lookups.
pub record Walk : Type 0 where
  pub found_frame : Bool
  pub regs : Registers
  pub frame : ℕ
  pub backtrace : List BacktraceRecord
  pub state : State

-- `br = backtrace + frame`, within `backtrace_length`, the length of the list.
abbrev pub put_back : ℕ → Option BacktraceRecord → List BacktraceRecord → List BacktraceRecord
put_back frame none backtrace = backtrace
put_back frame (some b) backtrace = set backtrace frame b

-- `br->method_name = "unknown"`, for that string's address.
abbrev pub name_unknown : ℕ → Option BacktraceRecord → Option BacktraceRecord
name_unknown unknown none = none
name_unknown unknown (some b) = some (record b { method_name = some unknown })

-- What a round does with the frame at `rbp` before it moves on: the walk, and whether it breaks.
unfoldable pub visit : Words → ℕ → ℕ → ℕ → ℕ → Walk → Run (Walk × Bool)
visit m unknown stop_at_rip rbp rip w = do
  (found, br, state) ← find_unwind_info rip (get_elem? w.backtrace w.frame) w.state
  elim found [
    | none ↦ done (
      record w {
        backtrace = put_back w.frame (name_unknown unknown br) w.backtrace;
        state = state;
      },
      w.found_frame,
    )
    | some u ↦
        let found_frame = w.found_frame || stop_at_rip == u.method_start in
        let w' = record w {
          found_frame = found_frame;
          backtrace = put_back w.frame br w.backtrace;
          state = state;
        } in
        let unwound = unwind_frame m rbp u.flags w.regs in
        if found_frame
        then done (w', false)
        else (do regs ← unwound; done (record w' { regs = regs }, false))
  ]

-- The frame that called the one at `rbp`: its `rbp`, and its `rip`, which stays where the saved `rbp`
-- is 0.
unfoldable pub caller : Words → ℕ → ℕ → Run (ℕ × ℕ)
caller m rbp rip = do
  p₀ ← load_word m rbp
  if p₀ == 0 then done (p₀, rip) else (do p₁ ← load_word m (rbp + 8); done (p₀, p₁))

-- `while( rbp != 0 )`. The fuel bounds the rounds.
unfoldable pub walk_loop : ℕ → Words → ℕ → ℕ → ℕ → ℕ → Walk → Run Walk
walk_loop zero m unknown stop_at_rip rbp rip w = if rbp == 0 then done w else stuck
walk_loop (suc fuel) m unknown stop_at_rip rbp rip w =
    let move : Walk → Run Walk = λ w'.
      (caller m rbp rip >>= λ c.
      walk_loop fuel m unknown stop_at_rip c.0 c.1 (record w' { frame = w'.frame + 1 })) in
    let round : Run Walk = visit m unknown stop_at_rip rbp rip w >>= λ v. elim v.1 [
      | true ↦ done v.0
      | false ↦ move v.0
    ] in
    if rbp == 0 then done w else round

-- unwindStack, with its result.
unfoldable pub unwind_stack :
    ℕ → Words → ℕ → ℕ → ℕ → ℕ → List BacktraceRecord → State → Run (Bool × Walk)
unwind_stack fuel m unknown rbp rip stop_at_rip backtrace state = do
  w ← walk_loop fuel m unknown stop_at_rip rbp rip (record {
    found_frame = false;
    regs = cleared;
    frame = 0;
    backtrace = backtrace;
    state = state;
  })
  done (w.found_frame, w)
