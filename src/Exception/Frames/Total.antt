-- ===== src/Exception/Frames/Total.antt =====
-- unwindStack ends on a chain of frames that ends.
use llc.Common.{ℕ, zero, suc, ◌+◌, ◌-◌, ◌<◌, ◌≡◌, ◌≢◌, ◌⊎◌, inl, inr, refl, ap, ◌∙◌, arith}
use llc.Common.{
  done-ne-stuck, fault-ne-stuck, option-ne-stuck, if-ne-stuck, bool-ne-stuck, >>=-ne-stuck-done,
  Option, List, [], ◌∷◌, done, stuck, ◌>>=◌, >>=-ne-stuck, ◌==◌, ◌||◌, >>=-eq-done, get_elem?,
  if◌then◌else◌,
}
use llc.Exception.Words.{Words, load_word, load_word-ne-stuck}
use llc.Exception.Tables.{UnwindRecord, search_table, binary_search, chop, middle}
use llc.Exception.Registry.{Node, search_tables, search_registry}
use llc.Exception.Cache.{
  BacktraceRecord, State, find_unwind_info, find_in_tables, find_cached_unwind_info,
}
use llc.Exception.Frames.{
  Registers, Walk, restore, unwind_frame, visit, caller, walk_loop, unwind_stack,
}

binary_search-ne-stuck :
    (fuel rip : ℕ) (table : List UnwindRecord) (p q : ℕ)
    → q < p + fuel
    → 0 < fuel
    → binary_search fuel rip table p q ≢ stuck
unfolding binary_search chop
binary_search-ne-stuck zero rip table p q h pos = absurd (omega arith)
binary_search-ne-stuck (suc fuel) rip table p q h pos = ground (
  arith,
  binary_search-ne-stuck fuel rip table p (middle p q),
  binary_search-ne-stuck fuel rip table (middle p q) q,
)

search_table-ne-stuck :
    (rip : ℕ) (table : List UnwindRecord) (count : ℕ) → search_table rip table count ≢ stuck
unfolding search_table
search_table-ne-stuck rip table zero = λ e. cc
search_table-ne-stuck rip table (suc n) =
    ground
      (arith, binary_search-ne-stuck (suc n) rip table 0 (suc n - 1) (omega arith) (omega arith))

search_tables-ne-stuck :
    (rip : ℕ) (start : List UnwindRecord) (length : ℕ) (nodes : List Node)
    → search_tables rip start length nodes ≢ stuck
unfolding search_tables
search_tables-ne-stuck rip start length [] =
    >>=-ne-stuck (search_table rip start length) _ (search_table-ne-stuck rip start length)
      (λ a. done-ne-stuck _)
search_tables-ne-stuck rip start length (node ∷ []) =
    >>=-ne-stuck (search_table rip start length) _ (search_table-ne-stuck rip start length)
      (λ a. option-ne-stuck a.0 _ _ fault-ne-stuck (λ p. done-ne-stuck _))
search_tables-ne-stuck rip start length (node ∷ next ∷ nodes) =
    >>=-ne-stuck (search_table rip start length) _ (search_table-ne-stuck rip start length) (λ a.
      option-ne-stuck a.0 _ _
        (option-ne-stuck node.head _ _ (done-ne-stuck _) (λ head.
          >>=-ne-stuck _ _ (search_tables-ne-stuck rip head next.length (next ∷ nodes))
            (λ b. done-ne-stuck _)))
        (λ p. done-ne-stuck _))

find_in_tables-ne-stuck :
    (i rip : ℕ) (b : Option BacktraceRecord) (s : State) → find_in_tables i rip b s ≢ stuck
unfolding find_in_tables search_registry
find_in_tables-ne-stuck i rip b s =
    >>=-ne-stuck _ _
      (>>=-ne-stuck _ _
        (search_tables-ne-stuck rip s.registry.start s.registry.start_length s.registry.unwind_head)
        (λ a. done-ne-stuck _))
      (λ a. done-ne-stuck _)

-- A lookup always ends or faults: no table and no recorded length makes its searches run on.
pub find_unwind_info-ne-stuck :
    (rip : ℕ) (b : Option BacktraceRecord) (s : State) → find_unwind_info rip b s ≢ stuck
unfolding find_unwind_info
find_unwind_info-ne-stuck rip b s = ground (
  arith,
  find_in_tables-ne-stuck (find_cached_unwind_info rip s.cache).0 rip b
      (record s { cache = (find_cached_unwind_info rip s.cache).1 }),
)

restore-ne-stuck : (m : Words) (flags mask stack old : ℕ) → restore m flags mask stack old ≢ stuck
unfolding restore load_word
restore-ne-stuck m flags mask stack old = ground arith

unwind_frame-ne-stuck :
    (m : Words) (rbp flags : ℕ) (r : Registers) → unwind_frame m rbp flags r ≢ stuck
unfolding unwind_frame
unwind_frame-ne-stuck m rbp flags r = >>=-ne-stuck _ _ (load_word-ne-stuck m rbp) (λ saved.
    >>=-ne-stuck _ _ (restore-ne-stuck m flags 0x4 rbp r.rbx) (λ (_, s₁).
      >>=-ne-stuck _ _ (restore-ne-stuck m flags 0x2000 s₁ r.r12) (λ (_, s₂).
        >>=-ne-stuck _ _ (restore-ne-stuck m flags 0x4000 s₂ r.r13) (λ (_, s₃).
          >>=-ne-stuck _ _ (restore-ne-stuck m flags 0x8000 s₃ r.r14) (λ (_, s₄).
            >>=-ne-stuck _ _ (restore-ne-stuck m flags 0x10000 s₄ r.r15) (λ a. done-ne-stuck _))))))

visit-ne-stuck :
    (m : Words) (unknown stop_at_rip rbp rip : ℕ) (w : Walk)
    → visit m unknown stop_at_rip rbp rip w ≢ stuck
unfolding visit
visit-ne-stuck m unknown stop_at_rip rbp rip w =
    >>=-ne-stuck _ _ (find_unwind_info-ne-stuck rip (get_elem? w.backtrace w.frame) w.state) (λ a.
      option-ne-stuck a.0 _ _ (done-ne-stuck _) (λ u.
        if-ne-stuck (w.found_frame || stop_at_rip == u.method_start) _ _ (done-ne-stuck _)
          (>>=-ne-stuck _ _ (unwind_frame-ne-stuck m rbp u.flags w.regs) (λ r. done-ne-stuck _))))

-- From `rbp` on, at most `n` frames lead by their saved `rbp` to one that is 0 or not readable.
abbrev pub EndsWithin : ℕ → Words → ℕ → Type 0
EndsWithin zero m rbp = rbp ≡ 0
EndsWithin (suc n) m rbp =
    (rbp ≡ 0) ⊎ ((saved : ℕ) → load_word m rbp ≡ done saved → EndsWithin n m saved)

saved_of :
    (p₀ : ℕ) (m : Words) (rbp rip : ℕ) (c : ℕ × ℕ)
    → (if p₀ == 0 then done (p₀, rip) else (do p₁ ← load_word m (rbp + 8); done (p₀, p₁))) ≡ done c
    → p₀ ≡ c.0
saved_of p₀ m rbp rip (saved, before) g = ground arith

caller-saved :
    (m : Words) (rbp rip : ℕ) (c : ℕ × ℕ) → caller m rbp rip ≡ done c → load_word m rbp ≡ done c.0
unfolding caller
caller-saved m rbp rip c e =
    let (p₀, h, g) = >>=-eq-done (load_word m rbp) _ e in h ∙ ap done (saved_of p₀ m rbp rip c g)

caller-ne-stuck : (m : Words) (rbp rip : ℕ) → caller m rbp rip ≢ stuck
unfolding caller
caller-ne-stuck m rbp rip = >>=-ne-stuck _ _ (load_word-ne-stuck m rbp) (λ p₀.
    if-ne-stuck (p₀ == 0) _ _ (done-ne-stuck _)
      (>>=-ne-stuck _ _ (load_word-ne-stuck m (rbp + 8)) (λ p₁. done-ne-stuck _)))

walk_loop-zero :
    (n : ℕ) (m : Words) (unknown stop_at_rip rip : ℕ) (w : Walk)
    → walk_loop n m unknown stop_at_rip 0 rip w ≡ done w
unfolding walk_loop
walk_loop-zero zero m unknown stop_at_rip rip w = refl
walk_loop-zero (suc n) m unknown stop_at_rip rip w = refl

walk_loop-ne-stuck :
    (n : ℕ) (m : Words) (unknown stop_at_rip rbp rip : ℕ) (w : Walk)
    → EndsWithin n m rbp
    → walk_loop n m unknown stop_at_rip rbp rip w ≢ stuck
unfolding walk_loop
walk_loop-ne-stuck zero m unknown stop_at_rip rbp rip w h = ground arith
walk_loop-ne-stuck (suc n) m unknown stop_at_rip rbp rip w (inl h) = ground arith
walk_loop-ne-stuck (suc n) m unknown stop_at_rip rbp rip w (inr h) =
    if-ne-stuck (rbp == 0) _ _ (done-ne-stuck w) (
      >>=-ne-stuck _ _ (visit-ne-stuck m unknown stop_at_rip rbp rip w) (λ v.
        bool-ne-stuck v.1 _ _ (done-ne-stuck v.0) (
          >>=-ne-stuck-done _ _ (caller-ne-stuck m rbp rip) (λ c e.
            walk_loop-ne-stuck n m unknown stop_at_rip c.0 c.1
              (record v.0 { frame = v.0.frame + 1 }) (h c.0 (caller-saved m rbp rip c e))))))

-- Where the saved frame pointers lead from `rbp` in at most `n` frames to one that is 0 or whose frame
-- cannot be read, unwindStack makes at most `n` rounds: with fuel `n` it does not run out.
pub unwind_stack-ne-stuck :
    (n : ℕ) (m : Words) (unknown rbp rip stop_at_rip : ℕ) (backtrace : List BacktraceRecord)
    (state : State)
    → EndsWithin n m rbp
    → unwind_stack n m unknown rbp rip stop_at_rip backtrace state ≢ stuck
unfolding unwind_stack
unwind_stack-ne-stuck n m unknown rbp rip stop_at_rip backtrace state h =
    >>=-ne-stuck _ _ (walk_loop-ne-stuck n m unknown stop_at_rip rbp rip _ h) (λ w. done-ne-stuck _)
