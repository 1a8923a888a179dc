-- ===== src/Unwind/Lsda/Phases.antt =====
-- The two phases of unwinding: the search phase, and the one that installs the handler.
use llc.Common.{ℕ, zero, suc, ◌+◌, ◌%◌, ◌^◌, ◌≡◌, arith}
use llc.Common.{Bool, true, false, [], ◌∷◌}
use llc.Common.{Run, done, fault, abort, stuck, ◌>>=◌, ltb, leb, ◌==◌, if◌then◌else◌}
use llc.Unwind.Memory.{Memory, load}
use llc.Unwind.Leb.{read_uleb128}
use llc.Unwind.Pointer.{read_encoded_pointer}
use llc.Unwind.Lsda.{
  handler_found, install_context, set_gr, set_ip, Frame, Verdict, Query, keep_unwinding,
  l_exception_class, found, site_loop, skip_lp_start, skip_class_info, walk_table, handle_lsda,
  l_personality,
}

-- What the installing phase does to the frame, for a handler at `target`.
abbrev pub enters : ℕ → ℕ → ℕ → Verdict
enters object class target = record {
  reason = install_context;
  calls =
      set_gr 0 object ∷ set_gr 1 (if class == l_exception_class then 2 else 4) ∷ set_ip target ∷ [];
}

-- One run in each phase: both keep unwinding, both fail alike, or the first finds a handler and
-- the second enters one.
pub data Agree (object class : ℕ) : Run Verdict → Run Verdict → Type 0 where
  both_pass : Agree object class (done keep_unwinding) (done keep_unwinding)
  both_find :
      (target : ℕ)
      → Agree object class
          (done (record { reason = handler_found; calls = [] }))
          (done (enters object class target))
  both_fault : Agree object class fault fault
  both_abort : Agree object class abort abort
  both_stuck : Agree object class stuck stuck

module _ (object class : ℕ) where
  -- Agreement goes through a common first step.
  bind-Agree {ℓ} :
      {A : Type ℓ} (r : Run A) (f g : A → Run Verdict)
      → ((a : A) → Agree object class (f a) (g a))
      → Agree object class (r >>= f) (r >>= g)
  bind-Agree (done a) f g h = h a
  bind-Agree fault f g h = both_fault
  bind-Agree abort f g h = both_abort
  bind-Agree stuck f g h = both_stuck

  if_Agree :
      (b : Bool) (r s t u : Run Verdict)
      → Agree object class r t
      → Agree object class s u
      → Agree object class (if b then r else s) (if b then t else u)
  if_Agree true r s t u h k = h
  if_Agree false r s t u h k = k

module _ (search install : ℕ) (is_search : search % 2 ≡ 1) (is_install : install % 2 ≡ 0) where
  found_search :
      (frame : Frame) (pad : ℕ)
      → found frame search pad ≡ record { reason = handler_found; calls = [] }
  unfolding found
  found_search frame pad = ground arith

  found_install :
      (frame : Frame) (pad : ℕ)
      → found frame install pad
        ≡ enters frame.exception_object frame.exception_class ((frame.func_start + pad) % 2 ^ 64)
  unfolding found
  found_install frame pad = ground arith

  found-Agree :
      (frame : Frame) (pad : ℕ)
      → Agree frame.exception_object frame.exception_class
          (done (found frame search pad))
          (done (found frame install pad))
  found-Agree frame pad = rw (found_search frame pad, found_install frame pad) (both_find _)

  site_loop-Agree :
      (fuel : ℕ) (frame : Frame) (p : ℕ)
      → Agree frame.exception_object frame.exception_class
          (site_loop fuel frame search p)
          (site_loop fuel frame install p)
  unfolding site_loop
  site_loop-Agree zero frame p = if_Agree _ _ _ _ _ _ _ both_stuck both_pass
  site_loop-Agree (suc fuel) frame p =
      if_Agree _ _ (ltb p frame.table_end) _ _ _ _
        (bind-Agree _ _ (read_encoded_pointer frame.memory p frame.encoding) _ _ (λ (start, p₁).
          bind-Agree _ _ (read_encoded_pointer frame.memory p₁ frame.encoding) _ _ (λ (length, p₂).
            bind-Agree _ _ (read_encoded_pointer frame.memory p₂ frame.encoding) _ _
              (λ (landing_pad, p₃).
                bind-Agree _ _ (read_uleb128 frame.memory p₃) _ _ (λ (action_entry, p₄).
                  if_Agree _ _ _ _ _ _ _ (site_loop-Agree fuel frame p₄) (
                    if_Agree _ _ _ _ _ _ _ (found-Agree frame landing_pad)
                      (site_loop-Agree fuel frame p₄)))))))
        both_pass

  walk_table-Agree :
      (m : Memory) (q : Query) (p : ℕ)
      → Agree q.exception_object q.exception_class
          (walk_table m q search p)
          (walk_table m q install p)
  unfolding walk_table
  walk_table-Agree m q p =
      bind-Agree _ _ (load m p) _ _
        (λ encoding. bind-Agree _ _ (read_uleb128 m (suc p)) _ _ (λ read. site_loop-Agree _ _ _))

  -- The phases agree, on any bytes: the routine reports a handler in the search phase exactly when
  -- the other phase enters a landing pad, with the exception in data register 0 and 2 or 4, for an
  -- exception of L or a foreign one, in data register 1; and it keeps unwinding in both or in none.
  pub l_personality_phases :
      (m : Memory) (q : Query)
      → Agree q.exception_object q.exception_class
          (l_personality m q search)
          (l_personality m q install)
  unfolding l_personality handle_lsda
  l_personality_phases m q = if_Agree _ _ negative _ _ _ _ both_pass (
      if_Agree _ _ negative _ _ _ _ both_pass (
        if_Agree _ _ (q.lsda == 0) _ _ _ _ both_pass (
          bind-Agree _ _ (skip_lp_start m q.lsda) _ _
            (λ p. bind-Agree _ _ (skip_class_info m p) _ _ (λ p'. walk_table-Agree m q p')))))
    where
      negative : Bool
      negative = leb (2 ^ 31) q.version
