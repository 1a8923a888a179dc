-- ===== src/Unwind/Lsda/Total.antt =====
-- The personality routine ends, whatever the exception table holds.
use llc.Common.{ℕ, zero, suc, ◌-◌, ◌%◌, ◌^◌, ◌≤◌, ◌<◌, ◌≡◌, ◌≢◌, refl, arith}
use llc.Common.{Bool}
use llc.Common.{Run, done, stuck, ◌>>=◌, >>=-ne-stuck, ltb, if◌then◌else◌}
use llc.Unwind.Memory.{Memory, load, load-ne-stuck}
use llc.Unwind.Leb.{read_uleb128}
use llc.Unwind.Leb.Total.{read_uleb128-ne-stuck}
use llc.Unwind.Pointer.{read_encoded_pointer}
use llc.Unwind.Lsda.Sites.{site_advances}
use llc.Unwind.Pointer.Progress.{read_encoded_pointer-ne-stuck}
use llc.Unwind.Lsda.{
  Frame, Verdict, Query, site_loop, skip_lp_start, skip_class_info, walk_table, handle_lsda,
  l_personality,
}

-- A bind whose second part may use what the first part returned.
bind_total {ℓ κ} :
    {A : Type ℓ} {B : Type κ} (r : Run A) (f : A → Run B)
    → r ≢ stuck
    → ((a : A) → r ≡ done a → f a ≢ stuck)
    → (r >>= f) ≢ stuck
bind_total (done a) f hr hf = hf a refl
bind_total Run.fault f hr hf = λ e. cc
bind_total Run.abort f hr hf = λ e. cc
bind_total stuck f hr hf = absurd (hr refl)

module _ (frame : Frame) (actions : ℕ) where
  open frame use {memory, encoding, table_end}

  site_loop-ne-stuck : (fuel p : ℕ) → table_end - p ≤ fuel → site_loop fuel frame actions p ≢ stuck
  unfolding site_loop
  site_loop-ne-stuck zero p h = ground arith
  site_loop-ne-stuck (suc fuel) p h = choose_branch _ _ (λ inside.
      bind_total (read_encoded_pointer memory p encoding) _ (read_encoded_pointer-ne-stuck _ _ _)
        λ (start, p₁) r₁.
          bind_total (read_encoded_pointer memory p₁ encoding) _
            (read_encoded_pointer-ne-stuck _ _ _)
            λ (length, p₂) r₂.
              bind_total (read_encoded_pointer memory p₂ encoding) _
                (read_encoded_pointer-ne-stuck _ _ _)
                λ (landing_pad, p₃) r₃.
                  bind_total (read_uleb128 memory p₃) _ (read_uleb128-ne-stuck _ _)
                    λ (action_entry, p₄) r₄. branches _ _ _ _ (
                      site_loop-ne-stuck fuel p₄
                        (omega (arith, site_advances _ _ _ _ _ _ _ _ _ _ _ r₁ r₂ r₃ r₄))))
    where
      choose_branch :
          (round : Run Verdict) (v : Verdict)
          → (p < table_end → round ≢ stuck)
          → (if ltb p table_end then round else done v) ≢ stuck
      choose_branch round v h = ground arith

      branches :
          (b c : Bool) (rest : Run Verdict) (v : Verdict)
          → rest ≢ stuck
          → (if b then rest else if c then done v else rest) ≢ stuck
      branches b c rest v h = ground arith

skip_lp_start-ne-stuck : (m : Memory) (p : ℕ) → skip_lp_start m p ≢ stuck
unfolding skip_lp_start
skip_lp_start-ne-stuck m p =
    >>=-ne-stuck (load m p) _ (load-ne-stuck m p)
      (λ encoding. ground (arith, read_encoded_pointer-ne-stuck m (suc p) encoding))

skip_class_info-ne-stuck : (m : Memory) (p : ℕ) → skip_class_info m p ≢ stuck
unfolding skip_class_info
skip_class_info-ne-stuck m p =
    >>=-ne-stuck (load m p) _ (load-ne-stuck m p)
      (λ encoding. ground (arith, read_uleb128-ne-stuck m (suc p)))

walk_table-ne-stuck : (m : Memory) (q : Query) (actions p : ℕ) → walk_table m q actions p ≢ stuck
unfolding walk_table
walk_table-ne-stuck m q actions p = >>=-ne-stuck (load m p) _ (load-ne-stuck m p) (λ encoding.
    >>=-ne-stuck (read_uleb128 m (suc p)) _ (read_uleb128-ne-stuck m (suc p))
      (λ read. site_loop-ne-stuck _ actions (read.0 % 2 ^ 32) read.1 (omega arith)))

handle_lsda-ne-stuck : (m : Memory) (q : Query) (actions : ℕ) → handle_lsda m q actions ≢ stuck
unfolding handle_lsda
handle_lsda-ne-stuck m q actions = ground (arith, with_table)
  where
    with_table :
        (skip_lp_start m q.lsda >>= λ p. skip_class_info m p >>= λ p'. walk_table m q actions p')
        ≢ stuck
    with_table = >>=-ne-stuck (skip_lp_start m q.lsda) _ (skip_lp_start-ne-stuck m q.lsda) (λ p.
        >>=-ne-stuck (skip_class_info m p) _ (skip_class_info-ne-stuck m p)
          (λ p'. walk_table-ne-stuck m q actions p'))

-- The routine ends on every query and on any bytes: no call-site table makes its loop run on.
pub l_personality-ne-stuck :
    (m : Memory) (q : Query) (actions : ℕ) → l_personality m q actions ≢ stuck
unfolding l_personality
l_personality-ne-stuck m q actions = ground (arith, handle_lsda-ne-stuck m q actions)
