-- ===== src/Common/Bits.antt =====
-- `|` of C words: its lowest digit, single bits of it, and the case of disjoint fields.
use Prim.Native.Nat.{ℕ, zero, suc, ◌+◌, ◌*◌, ◌/◌, ◌%◌, ◌^◌, ◌≤◌, ◌<◌, max, compare, Ordering}
use Prim.Native.Nat.{bit_or, digits, bit_or-bitwise}
use mathlib.Core.Path.{◌≡◌, refl, ap}
use mathlib.Core.Bool.{Bool, true, false, ◌||◌}
use native.Mathlib.Nat.{pow-suc, pow-succ', div-div-eq-div-mul, pow-le-pow_right}
use native.Mathlib.Numerals.{towards_suc}
use native.Mathlib.Omega.{arith}

abbrev or_digits : ℕ → ℕ → ℕ → ℕ
or_digits fuel a b = digits (λ y. y) max fuel a b

-- The recursion on digits reads no more fuel than its first argument.
or_digits_enough : (f g a b : ℕ) → a ≤ f → a ≤ g → or_digits f a b ≡ or_digits g a b
or_digits_enough zero zero a b hf hg = refl
or_digits_enough zero (suc g) zero b hf hg = refl
or_digits_enough zero (suc g) (suc a) b hf hg = absurd (omega arith)
or_digits_enough (suc f) zero zero b hf hg = refl
or_digits_enough (suc f) zero (suc a) b hf hg = absurd (omega arith)
or_digits_enough (suc f) (suc g) zero b hf hg = refl
or_digits_enough (suc f) (suc g) (suc a) b hf hg =
    omega (arith, or_digits_enough f g (suc a / 2) (b / 2) (omega arith) (omega arith))

zero-bit_or : (b : ℕ) → bit_or 0 b ≡ b
zero-bit_or b = bit_or-bitwise 0 b

-- The lowest digit of `a | b`, and the digits above it.
pub bit_or_digit : (a b : ℕ) → bit_or a b ≡ bit_or (a / 2) (b / 2) * 2 + max (a % 2) (b % 2)
bit_or_digit zero b = omega (arith, zero-bit_or b, zero-bit_or (b / 2))
bit_or_digit (suc a) b = omega (
  arith,
  bit_or-bitwise (suc a) b,
  bit_or-bitwise (suc a / 2) (b / 2),
  or_digits_enough a (suc a / 2) (suc a / 2) (b / 2) (omega arith) (omega arith),
)

or_zero_below : (n a : ℕ) → a ≤ n → bit_or a 0 ≡ a
or_zero_below n zero h = refl
or_zero_below zero (suc a) h = absurd (omega arith)
or_zero_below (suc n) (suc a) h =
    omega (arith, bit_or_digit (suc a) 0, or_zero_below n (suc a / 2) (omega arith))

pub bit_or-zero : (a : ℕ) → bit_or a 0 ≡ a
bit_or-zero a = or_zero_below a a (omega arith)

shifted_digits : (x s : ℕ) → (x * 2 ^ suc s / 2 ≡ x * 2 ^ s) × (x * 2 ^ suc s % 2 ≡ 0)
shifted_digits x s = omega (arith, ap (λ (t : ℕ). x * t) (pow-suc 2 s))

-- `acc | (x << s)` is a sum where `acc` fits below bit `s`.
pub bit_or-shifted : (s acc x : ℕ) → acc < 2 ^ s → bit_or acc (x * 2 ^ s) ≡ acc + x * 2 ^ s
bit_or-shifted zero acc x h = ground (arith, zero-bit_or (x * 2 ^ 0))
bit_or-shifted (suc s) acc x h = rw (bit_or_digit acc (x * 2 ^ suc s)) (
    rw (shifted_digits x s).0 (
      omega (
        arith,
        shifted_digits x s,
        pow-suc 2 s,
        bit_or-shifted s (acc / 2) x (omega (arith, pow-suc 2 s)),
      )))

-- `(w >> i) & 1`, the bit that the macro BIT of jay reads inside a word.
unfoldable pub test_bit : ℕ → ℕ → Bool
test_bit w i = elim (compare (w / 2 ^ i % 2) 1) [ Ordering.eq ↦ true | _ ↦ false ]

pub test_bit-suc : (w i : ℕ) → test_bit w (suc i) ≡ test_bit (w / 2) i
unfolding test_bit
test_bit-suc w i = ground (arith, pow-succ' 2 i, div-div-eq-div-mul w 2 (2 ^ i))

or_half : (a b : ℕ) → bit_or a b / 2 ≡ bit_or (a / 2) (b / 2)
or_half a b = omega (arith, bit_or_digit a b)

test_bit-zero : (a b : ℕ) → test_bit (bit_or a b) 0 ≡ (test_bit a 0 || test_bit b 0)
unfolding test_bit
test_bit-zero a b = ground (arith, bit_or_digit a b)

-- Bit `i` of `a | b`.
pub test_bit-bit_or : (i a b : ℕ) → test_bit (bit_or a b) i ≡ (test_bit a i || test_bit b i)
test_bit-bit_or zero a b = test_bit-zero a b
test_bit-bit_or (suc i) a b =
    rw (test_bit-suc (bit_or a b) i, test_bit-suc a i, test_bit-suc b i, or_half a b)
      (test_bit-bit_or i (a / 2) (b / 2))

pub two_pow_mono : (s t : ℕ) → s ≤ t → 2 ^ s ≤ 2 ^ t
two_pow_mono s t h = pow-le-pow_right (omega arith) h

-- `2 ^ (s + 7)`, a whole group of seven bits further.
pub two_pow_group : (s : ℕ) → 2 ^ (s + 7) ≡ 128 * 2 ^ s
two_pow_group s = simp towards_suc (
    omega (
      arith,
      pow-succ' 2 (s),
      pow-succ' 2 (suc s),
      pow-succ' 2 (suc (suc s)),
      pow-succ' 2 (suc (suc (suc s))),
      pow-succ' 2 (suc (suc (suc (suc s)))),
      pow-succ' 2 (suc (suc (suc (suc (suc s))))),
      pow-succ' 2 (suc (suc (suc (suc (suc (suc s)))))),
    ))
