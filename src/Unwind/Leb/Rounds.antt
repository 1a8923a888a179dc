-- ===== src/Unwind/Leb/Rounds.antt =====
-- One round of the loop that the LEB128 readers share.
use Prim.Native.Nat.{bit_or}
use llc.Common.{ℕ, suc, ◌+◌, ◌-◌, ◌*◌, ◌/◌, ◌%◌, ◌^◌, ◌≤◌, ◌<◌, ◌≡◌, ap, arith}
use native.Mathlib.Nat.{div-add-mod}
use llc.Common.{done}
use llc.Common.{some}
use llc.Common.Bits.{bit_or-shifted, two_pow_mono, two_pow_group}
use llc.Unwind.Memory.{Memory, sign_extend32}
use llc.Unwind.Leb.{shift_int, leb_loop}

pub group_bound : (x t : ℕ) → x < 128 → t ≤ 2 ^ 21 → x * t < 2 ^ 28
group_bound x t hx ht = grind arith

-- A group below bit 28 is shifted without touching the sign.
shift_int_low : (x s : ℕ) → x < 128 → s ≤ 21 → shift_int x s ≡ done (x * 2 ^ s)
unfolding shift_int sign_extend32
shift_int_low x s hx hs = ground (arith, group_bound x (2 ^ s) hx (two_pow_mono s 21 hs))

-- The group at bit 28 loses what does not fit 32 bits, and bit 31 becomes the sign.
shift_int_top : (x : ℕ) → shift_int x 28 ≡ done (sign_extend32 (x % 16 * 2 ^ 28))
unfolding shift_int
shift_int_top x = ground arith

-- One round on a byte of which more follow.
pub more_byte :
    (f : ℕ) (m : Memory) (p acc s g : ℕ)
    → m p ≡ some (g + 128)
    → g < 128
    → s ≤ 21
    → acc < 2 ^ s
    → leb_loop (suc f) m p acc s ≡ leb_loop f m (suc p) (acc + g * 2 ^ s) (s + 7)
unfolding leb_loop
more_byte f m p acc s g e hg hs ha =
    ground (arith, e, shift_int_low g s hg hs, bit_or-shifted s acc g ha)

-- The last round, below bit 28.
pub last_byte :
    (f : ℕ) (m : Memory) (p acc s g : ℕ)
    → m p ≡ some g
    → g < 128
    → s ≤ 21
    → acc < 2 ^ s
    → leb_loop (suc f) m p acc s
      ≡ done (record { result = acc + g * 2 ^ s; shift = s + 7; byte = g; p = suc p })
unfolding leb_loop
last_byte f m p acc s g e hg hs ha =
    ground (arith, e, shift_int_low g s hg hs, bit_or-shifted s acc g ha)

or_ones :
    (acc x : ℕ)
    → acc < 2 ^ 28
    → bit_or acc (x * 2 ^ 28 + (2 ^ 64 - 2 ^ 32)) ≡ acc + x * 2 ^ 28 + (2 ^ 64 - 2 ^ 32)
or_ones acc x h =
    let regroup : x * 2 ^ 28 + (2 ^ 64 - 2 ^ 32) ≡ (x + (2 ^ 36 - 16)) * 2 ^ 28 = omega arith in
    rw regroup (omega (arith, bit_or-shifted 28 acc (x + (2 ^ 36 - 16)) h))

sign_extend_top :
    (acc x : ℕ)
    → acc < 2 ^ 28
    → bit_or acc (sign_extend32 (x % 16 * 2 ^ 28)) ≡ sign_extend32 (acc + x % 16 * 2 ^ 28)
unfolding sign_extend32
sign_extend_top acc x h = ground (arith, or_ones acc (x % 16) h, bit_or-shifted 28 acc (x % 16) h)

-- The fifth round, at bit 28, if it is the last.
pub top_byte :
    (f : ℕ) (m : Memory) (p acc g : ℕ)
    → m p ≡ some g
    → g < 128
    → acc < 2 ^ 28
    → leb_loop (suc f) m p acc 28
      ≡ done (record {
        result = sign_extend32 (acc + g % 16 * 2 ^ 28);
        shift = 35;
        byte = g;
        p = suc p;
      })
unfolding leb_loop
top_byte f m p acc g e hg ha = ground (arith, e, shift_int_top g, sign_extend_top acc g ha)

pub split_group : (v s : ℕ) → v * 2 ^ s ≡ v % 128 * 2 ^ s + v / 128 * 2 ^ (s + 7)
split_group v s = omega (
  arith,
  ap (λ (t : ℕ). t * 2 ^ s) (div-add-mod v 128),
  ap (λ (t : ℕ). v / 128 * t) (two_pow_group s),
)

pub group_room : (acc v s : ℕ) → acc < 2 ^ s → acc + v % 128 * 2 ^ s < 2 ^ (s + 7)
group_room acc v s h = rw (two_pow_group s) (grind arith)
