-- ===== src/Unwind/Memory.antt =====
-- The bytes that the routines of lrt-unwind.c read through a `uint8 *`.
use llc.Common.{ℕ, zero, suc, ◌+◌, ◌-◌, ◌*◌, ◌/◌, ◌%◌, ◌^◌, ◌<◌, ◌≡◌, refl, ap, arith}
use llc.Common.{◌>>=◌, length}
use llc.Common.{◌++◌}
use native.Mathlib.Nat.{pow-suc, add-zero}
use llc.Common.{Option, none, some, List, [], ◌∷◌, Run, done, fault, stuck, ◌≢◌, ltb, if◌then◌else◌}

-- `none` is an address that is not mapped.
abbrev pub Memory : Type 0
Memory = ℕ → Option ℕ

-- `*p`, for a pointer to an unsigned char.
abbrev pub load : Memory → ℕ → Run ℕ
load m p = elim (m p) [ none ↦ fault | some b ↦ done (b % 256) ]

-- The bytes stand at `p` and behind it.
abbrev pub Holds : Memory → ℕ → List ℕ → Type 0
Holds m p [] = Unit
Holds m p (b ∷ bs) = (m p ≡ some b) × Holds m (suc p) bs

-- The conversion of a signed pattern of `w` bits to 64 bits.
unfoldable pub sign_extend : ℕ → ℕ → ℕ
sign_extend w v = if ltb v (2 ^ (w - 1)) then v else v + (2 ^ 64 - 2 ^ w)

unfoldable pub sign_extend32 : ℕ → ℕ
unfolding sign_extend
sign_extend32 v = sign_extend 32 v

pub sign_extend32-lt : (w : ℕ) → w < 2 ^ 32 → sign_extend32 w < 2 ^ 64
unfolding sign_extend32
sign_extend32-lt w h = ground arith

pub load-ne-stuck : (m : Memory) (p : ℕ) → load m p ≢ stuck
load-ne-stuck m p = ground arith

-- `*((T *)p)` for an unsigned type of `n` bytes, lowest byte first.
unfoldable pub load_word : ℕ → Memory → ℕ → Run ℕ
load_word zero m p = done 0
load_word (suc n) m p = do low ← load m p; high ← load_word n m (suc p); done (low + 256 * high)

-- The `n` bytes of `v`, lowest first.
unfoldable pub bytes : ℕ → ℕ → List ℕ
bytes zero v = []
bytes (suc n) v = (v % 256) ∷ bytes n (v / 256)

pub length-bytes : (n v : ℕ) → length (bytes n v) ≡ n
unfolding bytes
length-bytes zero v = refl
length-bytes (suc n) v = ap suc (length-bytes n (v / 256))

pub load_word-bytes :
    (n v : ℕ) (m : Memory) (p : ℕ) → v < 256 ^ n → Holds m p (bytes n v) → load_word n m p ≡ done v
unfolding load_word bytes
load_word-bytes zero v m p h holds = ground arith
load_word-bytes (suc n) v m p h holds =
    ground
      (arith, holds.0, load_word-bytes n (v / 256) m (suc p) (omega (arith, pow-suc 256 n)) holds.1)

pub load_word-ne-stuck : (n : ℕ) (m : Memory) (p : ℕ) → load_word n m p ≢ stuck
unfolding load_word
load_word-ne-stuck zero m p = ground arith
load_word-ne-stuck (suc n) m p = ground (arith, load_word-ne-stuck n m (suc p))

-- A prefix of what a region holds, and the rest.
pub Holds-append :
    (m : Memory) (p : ℕ) (xs ys : List ℕ)
    → Holds m p (xs ++ ys)
    → Holds m p xs × Holds m (p + length xs) ys
Holds-append m p [] ys h = (tt, rw add-zero h)
Holds-append m p (x ∷ xs) ys h =
    let (front, back) = Holds-append m (suc p) xs ys h.1 in
    let moved : suc p + length xs ≡ p + suc (length xs) = omega arith in
    ((h.0, front), rw (← moved) back)
