-- ===== src/Unwind/Leb/Total.antt =====
-- The LEB128 readers end on any bytes.
use Prim.Native.Nat.{bit_or}
use llc.Common.{ℕ, zero, suc, ◌+◌, ◌-◌, ◌*◌, ◌/◌, ◌%◌, ◌^◌, ◌≤◌, ◌<◌, ◌≡◌, arith}
use llc.Common.{>>=-ne-stuck, >>=-eq-done, Bool}
use llc.Common.{Run, done, fault, stuck, ◌==◌, if◌then◌else◌, ◌≢◌}
use llc.Unwind.Memory.{Memory, load, load-ne-stuck}
use llc.Unwind.Leb.{Leb, shift_int, leb_loop, read_uleb128, read_sleb128}

shift_int-ne-stuck : (x s : ℕ) → shift_int x s ≢ stuck
unfolding shift_int
shift_int-ne-stuck x s = ground arith

shift_int_wide : (x s : ℕ) → 32 ≤ s → shift_int x s ≡ fault
unfolding shift_int
shift_int_wide x s h = ground arith

leb_loop-ne-stuck :
    (f : ℕ) (m : Memory) (p acc s : ℕ) → 32 ≤ s + 7 * f → leb_loop (suc f) m p acc s ≢ stuck
unfolding leb_loop
leb_loop-ne-stuck zero m p acc s h =
    >>=-ne-stuck (load m p) _ (load-ne-stuck m p)
      (λ byte. rw (shift_int_wide (byte % 128) s (omega arith)) (λ e. cc))
leb_loop-ne-stuck (suc f) m p acc s h = >>=-ne-stuck (load m p) _ (load-ne-stuck m p) (λ byte.
    >>=-ne-stuck (shift_int (byte % 128) s) _ (shift_int-ne-stuck _ s) (λ group.
      round (byte / 128 % 2 == 1) _ _
        (leb_loop-ne-stuck f m (suc p) (bit_or acc group) (s + 7) (omega arith))))
  where
    round :
        (b : Bool) (rest : Run Leb) (leb : Leb)
        → rest ≢ stuck
        → (if b then rest else done leb) ≢ stuck
    round b rest leb hr = ground arith

-- Neither reader's loop runs out of its six rounds of fuel, whatever bytes it meets.
pub read_uleb128-ne-stuck : (m : Memory) (p : ℕ) → read_uleb128 m p ≢ stuck
unfolding read_uleb128
read_uleb128-ne-stuck m p =
    >>=-ne-stuck (leb_loop 6 m p 0 0) _ (leb_loop-ne-stuck 5 m p 0 0 (omega arith)) (λ leb e. cc)

pub read_sleb128-ne-stuck : (m : Memory) (p : ℕ) → read_sleb128 m p ≢ stuck
unfolding read_sleb128
read_sleb128-ne-stuck m p =
    >>=-ne-stuck (leb_loop 6 m p 0 0) _ (leb_loop-ne-stuck 5 m p 0 0 (omega arith))
      (λ leb. ground (arith, shift_int-ne-stuck (2 ^ 32 - 1) leb.shift))

leb_loop-lt :
    (f : ℕ) (m : Memory) (p acc s : ℕ) (leb : Leb) → leb_loop f m p acc s ≡ done leb → p < leb.p
unfolding leb_loop
leb_loop-lt zero m p acc s leb e = cc
leb_loop-lt (suc f) m p acc s leb e =
    let (byte, read, e₁) = >>=-eq-done (load m p) _ e in
    let (group, shifted, e₂) = >>=-eq-done (shift_int (byte % 128) s) _ e₁ in
    ground (arith, leb_loop-lt f m (suc p) (bit_or acc group) (s + 7) leb)

-- Each reader takes at least one byte.
pub read_uleb128-lt :
    (m : Memory) (p value next : ℕ) → read_uleb128 m p ≡ done (value, next) → p < next
unfolding read_uleb128
read_uleb128-lt m p value next e =
    let (leb, run, e₁) = >>=-eq-done (leb_loop 6 m p 0 0) _ e in
    ground (arith, leb_loop-lt 6 m p 0 0 leb run)

pub read_sleb128-lt :
    (m : Memory) (p value next : ℕ) → read_sleb128 m p ≡ done (value, next) → p < next
unfolding read_sleb128
read_sleb128-lt m p value next e =
    let (leb, run, e₁) = >>=-eq-done (leb_loop 6 m p 0 0) _ e in
    ground (arith, leb_loop-lt 6 m p 0 0 leb run)
