-- ===== src/Jay/Bits.antt =====
-- The bit vectors of jay/defs.h, as lists of 32-bit words, and the macros WORDSIZE, BIT and SETBIT.
use llc.Common.{ℕ, zero, suc, ◌+◌, ◌-◌, ◌/◌, ◌%◌, ◌^◌, ◌<◌, ◌≡◌, ◌≢◌, refl, sym, ap, ◌∙◌, arith}
use llc.Common.{
  Bool, true, false, ◌||◌, List, [], ◌∷◌, length, length-set, replicate, get_or, set,
  get_or-set_self, get_or-set_ne, set_out, get_or-replicate,
}
use Prim.Native.Nat.{bit_or}
use native.Mathlib.Nat.{pow-suc}
use native.Mathlib.Decide.{dec_lt, ℕ_discrete}
use llc.Common.Bits.{test_bit, test_bit-bit_or, test_bit-suc, bit_or-zero}

abbrev pub bits_per_word : ℕ
bits_per_word = 32

abbrev pub word_size : ℕ → ℕ
word_size n = (n + (bits_per_word - 1)) / bits_per_word

-- BIT(r, n).
unfoldable pub bit : List ℕ → ℕ → Bool
bit r n = test_bit (get_or r (n / 32) 0) (n % 32)

-- SETBIT(r, n).
unfoldable pub set_bit : List ℕ → ℕ → List ℕ
set_bit r n = set r (n / 32) (bit_or (get_or r (n / 32) 0) (2 ^ (n % 32)))

-- `*r++ |= *s++` over the words of `r`.
unfoldable pub or_words : List ℕ → List ℕ → List ℕ
or_words [] s = []
or_words (v ∷ r) [] = v ∷ r
or_words (v ∷ r) (w ∷ s) = bit_or v w ∷ or_words r s

pub length-or_words : (r s : List ℕ) → length (or_words r s) ≡ length r
unfolding or_words
length-or_words [] s = refl
length-or_words (v ∷ r) [] = refl
length-or_words (v ∷ r) (w ∷ s) = ap suc (length-or_words r s)

get_or-or_words :
    (r s : List ℕ) (i : ℕ)
    → length r ≡ length s
    → get_or (or_words r s) i 0 ≡ bit_or (get_or r i 0) (get_or s i 0)
unfolding or_words
get_or-or_words [] [] i h = sym (bit_or-zero 0)
get_or-or_words [] (w ∷ s) i h = absurd (omega arith)
get_or-or_words (v ∷ r) [] i h = absurd (omega arith)
get_or-or_words (v ∷ r) (w ∷ s) zero h = refl
get_or-or_words (v ∷ r) (w ∷ s) (suc i) h = get_or-or_words r s i (omega arith)

-- A bit of the union of two vectors of one length.
pub bit-or_words :
    (r s : List ℕ) (n : ℕ) → length r ≡ length s → bit (or_words r s) n ≡ (bit r n || bit s n)
unfolding bit
bit-or_words r s n h =
    rw (get_or-or_words r s (n / 32) h)
      (test_bit-bit_or (n % 32) (get_or r (n / 32) 0) (get_or s (n / 32) 0))

half_pow : (i : ℕ) → 2 ^ suc i / 2 ≡ 2 ^ i
half_pow i = omega (arith, pow-suc 2 i)

even_low : (w : ℕ) → w % 2 ≡ 0 → test_bit w 0 ≡ false
unfolding test_bit
even_low w h = ground (arith, h)

pub test_bit-zero_word : (k : ℕ) → test_bit 0 k ≡ false
unfolding test_bit
test_bit-zero_word zero = refl
test_bit-zero_word (suc k) = rw (test_bit-suc 0 k) (test_bit-zero_word k)

or_true : (b : Bool) → (b || true) ≡ true
or_true true = refl
or_true false = refl

pub or_false : (b : Bool) → (b || false) ≡ b
or_false true = refl
or_false false = refl

-- A power of two has one bit.
test_bit-pow_self : (i : ℕ) → test_bit (2 ^ i) i ≡ true
unfolding test_bit
test_bit-pow_self zero = refl
test_bit-pow_self (suc i) = rw (test_bit-suc (2 ^ suc i) i, half_pow i) (test_bit-pow_self i)

test_bit-pow_ne : (i k : ℕ) → i ≢ k → test_bit (2 ^ i) k ≡ false
test_bit-pow_ne zero zero h = absurd (h refl)
test_bit-pow_ne zero (suc k) h = rw (test_bit-suc 1 k) (test_bit-zero_word k)
test_bit-pow_ne (suc i) zero h = even_low (2 ^ suc i) (omega (arith, pow-suc 2 i))
test_bit-pow_ne (suc i) (suc k) h =
    rw (test_bit-suc (2 ^ suc i) k, half_pow i) (test_bit-pow_ne i k (λ e. h (ap suc e)))

-- A word of a vector with one bit more, and the others.
pub bit-set_self :
    (r : List ℕ) (n : ℕ)
    → n / 32 < length r
    → bit (set r (n / 32) (bit_or (get_or r (n / 32) 0) (2 ^ (n % 32)))) n ≡ true
unfolding bit
bit-set_self r n h =
    rw (get_or-set_self r (n / 32) (bit_or (get_or r (n / 32) 0) (2 ^ (n % 32))) 0 h) (
      rw (test_bit-bit_or (n % 32) (get_or r (n / 32) 0) (2 ^ (n % 32)))
        (rw (test_bit-pow_self (n % 32)) (or_true _)))

same_word :
    (r : List ℕ) (w b c : ℕ)
    → b ≢ c
    → test_bit (get_or (set r w (bit_or (get_or r w 0) (2 ^ b))) w 0) c ≡ test_bit (get_or r w 0) c
same_word r w b c h = elim (dec_lt w (length r)) [
  | yes inside ↦
      rw (get_or-set_self r w (bit_or (get_or r w 0) (2 ^ b)) 0 inside)
        (rw (test_bit-bit_or c (get_or r w 0) (2 ^ b)) (rw (test_bit-pow_ne b c h) (or_false _)))
  | no out ↦ rw (set_out r w (bit_or (get_or r w 0) (2 ^ b)) (omega arith)) refl
]

pub bit-set_ne :
    (r : List ℕ) (n k : ℕ)
    → n ≢ k
    → bit (set r (n / 32) (bit_or (get_or r (n / 32) 0) (2 ^ (n % 32)))) k ≡ bit r k
unfolding bit
bit-set_ne r n k h = elim (ℕ_discrete (n / 32) (k / 32)) [
  | yes same ↦ rw same (same_word r (k / 32) (n % 32) (k % 32) (λ e. h (omega arith)))
  | no apart ↦ rw (get_or-set_ne r (n / 32) (k / 32) _ 0 apart) refl
]

-- SETBIT sets the bit, where there is a word for it, and no other.
pub bit-set_bit_self : (r : List ℕ) (n : ℕ) → n / 32 < length r → bit (set_bit r n) n ≡ true
unfolding set_bit
bit-set_bit_self r n h = bit-set_self r n h

pub bit-set_bit_ne : (r : List ℕ) (n k : ℕ) → n ≢ k → bit (set_bit r n) k ≡ bit r k
unfolding set_bit
bit-set_bit_ne r n k h = bit-set_ne r n k h

pub length-set_bit : (r : List ℕ) (n : ℕ) → length (set_bit r n) ≡ length r
unfolding set_bit
length-set_bit r n = length-set r (n / 32) (bit_or (get_or r (n / 32) 0) (2 ^ (n % 32)))

pub set_bit-keeps :
    (r : List ℕ) (n k : ℕ) → k / 32 < length r → bit r k ≡ true → bit (set_bit r n) k ≡ true
set_bit-keeps r n k room e = elim (ℕ_discrete n k) [
  | yes same ↦ rw same (bit-set_bit_self r k room)
  | no apart ↦ bit-set_bit_ne r n k apart ∙ e
]

abbrev pub zeros : ℕ → List ℕ
zeros n = replicate n 0

pub bit-zeros : (n k : ℕ) → bit (zeros n) k ≡ false
unfolding bit
bit-zeros n k = rw (get_or-replicate {A = ℕ} n (k / 32) 0) (test_bit-zero_word (k % 32))

pub length-zeros : (n : ℕ) → length (zeros n) ≡ n
length-zeros zero = refl
length-zeros (suc n) = ap suc (length-zeros n)

-- A bit of the word in front, and those behind it.
pub bit-word : (w : ℕ) (r : List ℕ) (n : ℕ) → n < 32 → bit (w ∷ r) n ≡ test_bit w n
unfolding bit
bit-word w r n h = let (a, b) : (n / 32 ≡ 0) × (n % 32 ≡ n) = omega arith in rw (a, b) refl

pub bit-behind : (w : ℕ) (r : List ℕ) (n : ℕ) → bit (w ∷ r) (n + 32) ≡ bit r n
unfolding bit
bit-behind w r n =
    let (a, b) : ((n + 32) / 32 ≡ suc (n / 32)) × ((n + 32) % 32 ≡ n % 32) = omega arith in
    rw (a, b) refl
