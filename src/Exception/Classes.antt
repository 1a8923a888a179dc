-- ===== src/Exception/Classes.antt =====
-- The class tables of lrt-exception.c and the test of a thrown class against a caught one. An L
-- object points behind the three header words of its class's table, at the word `super`.
pub mod Ancestors
use llc.Common.{ℕ, zero, suc, ◌+◌, ◌-◌, ◌%◌, ◌^◌}
use llc.Common.{Bool, true, false, ◌||◌, Run, done, stuck, ◌>>=◌, ◌==◌, if◌then◌else◌}
use llc.Exception.Words.{Words, load_word}

-- shiftVTable: the table that a pointer to its `super` word stands for.
unfoldable pub shift_vtable : ℕ → ℕ
shift_vtable p = if p == 0 then 0 else (p + (2 ^ 64 - 24)) % 2 ^ 64

-- getObjectVTable.
unfoldable pub get_object_vtable : Words → ℕ → Run ℕ
get_object_vtable m e = if e == 0 then done 0 else (do p ← load_word m e; done (shift_vtable p))

-- getSuperVTable: `super` is the fourth word of the table.
unfoldable pub get_super_vtable : Words → ℕ → Run ℕ
get_super_vtable m v =
    if v == 0 then done 0 else (do p ← load_word m (v + 24); done (shift_vtable p))

-- getCatchVTable: `catch` is the second word of a handler record.
unfoldable pub get_catch_vtable : Words → ℕ → Run ℕ
get_catch_vtable m r =
    if r == 0 then done 0 else (do p ← load_word m (r + 8); done (shift_vtable p))

-- catches, which calls itself on the class above. The fuel bounds the calls.
unfoldable pub catches : ℕ → Words → ℕ → ℕ → Run Bool
catches zero m catch e = stuck
catches (suc fuel) m catch e =
    let above = get_super_vtable m e >>= λ e'. catches fuel m catch e' in
    if catch == e then done true else if e == 0 || catch == 0 then done false else above
