-- ===== src/Unwind/Leb/RoundTrip.antt =====
-- What the ULEB128 reader makes of an encoding.
use llc.Common.{ℕ, zero, suc, ◌+◌, ◌-◌, ◌*◌, ◌/◌, ◌%◌, ◌^◌, ◌≤◌, ◌<◌, ◌≡◌, ap, arith}
use native.Mathlib.Nat.{pow-suc}
use native.Mathlib.Decide.{dec_lt}
use llc.Common.{◌∙◌}
use llc.Common.{done, ltb, if◌then◌else◌}
use llc.Common.{List, [], ◌∷◌, length, some}
use llc.Common.Bits.{two_pow_mono}
use llc.Unwind.Memory.{Memory, Holds, sign_extend32}
use llc.Unwind.Leb.Rounds.{group_bound, split_group, group_room, more_byte, last_byte, top_byte}
use llc.Unwind.Leb.{Leb, leb_loop, read_uleb128}

-- The groups of seven bits of `v`, lowest first, in at most `more + 1` bytes.
unfoldable pub uleb128 : ℕ → ℕ → List ℕ
uleb128 zero v = v ∷ []
uleb128 (suc more) v =
    let tail = uleb128 more (v / 128) in if ltb v 128 then v ∷ [] else (v % 128 + 128) ∷ tail

-- The loop from bit `s` on, where `more` further groups end at bit 28.
abbrev ReadsGroups : ℕ → Memory → ℕ → ℕ → ℕ → ℕ → ℕ → Type 0
ReadsGroups f m p acc s v n =
    (leb : Leb) × (leb_loop f m p acc s ≡ done leb)
    × (leb.result ≡ sign_extend32 ((acc + v * 2 ^ s) % 2 ^ 32))
    × (leb.p ≡ p + n)

last_group :
    (f : ℕ) (m : Memory) (p acc s v : ℕ)
    → m p ≡ some v
    → v < 128
    → s ≤ 21
    → acc < 2 ^ s
    → ReadsGroups (suc f) m p acc s v 1
unfolding sign_extend32
last_group f m p acc s v e hv hs ha = (
  record { result = acc + v * 2 ^ s; shift = s + 7; byte = v; p = suc p },
  last_byte f m p acc s v e hv hs ha,
  ground (arith, group_bound v (2 ^ s) hv (two_pow_mono s 21 hs), two_pow_mono s 21 hs),
  omega arith,
)

top_group :
    (f : ℕ) (m : Memory) (p acc v : ℕ)
    → m p ≡ some v
    → v < 128
    → acc < 2 ^ 28
    → ReadsGroups (suc f) m p acc 28 v 1
top_group f m p acc v e hv ha = (
  record { result = sign_extend32 (acc + v % 16 * 2 ^ 28); shift = 35; byte = v; p = suc p },
  top_byte f m p acc v e hv ha,
  ap sign_extend32 (omega arith),
  omega arith,
)

more_group :
    (f : ℕ) (m : Memory) (p acc s v n : ℕ)
    → m p ≡ some (v % 128 + 128)
    → s ≤ 21
    → acc < 2 ^ s
    → ReadsGroups f m (suc p) (acc + v % 128 * 2 ^ s) (s + 7) (v / 128) n
    → ReadsGroups (suc f) m p acc s v (suc n)
more_group f m p acc s v n e hs ha (leb, run, value, next) = (
  leb,
  more_byte f m p acc s (v % 128) e (omega arith) hs ha ∙ run,
  value ∙ ap (λ (t : ℕ). sign_extend32 (t % 2 ^ 32)) (omega (arith, split_group v s)),
  omega arith,
)

uleb128-small : (more v : ℕ) → v < 128 → uleb128 (suc more) v ≡ v ∷ []
unfolding uleb128
uleb128-small more v h = ground arith

uleb128-large :
    (more v : ℕ) → 128 ≤ v → uleb128 (suc more) v ≡ (v % 128 + 128) ∷ uleb128 more (v / 128)
unfolding uleb128
uleb128-large more v h = ground arith

leb_loop-uleb128 :
    (more f : ℕ) (m : Memory) (p acc s v : ℕ)
    → s + 7 * more ≡ 28
    → more < f
    → acc < 2 ^ s
    → v < 128 ^ suc more
    → Holds m p (uleb128 more v)
    → ReadsGroups f m p acc s v (length (uleb128 more v))
leb_loop-uleb128 more zero m p acc s v hs hf ha hv holds = absurd (omega arith)
leb_loop-uleb128 zero (suc f) m p acc s v hs hf ha hv holds =
    let at_28 : s ≡ 28 = omega arith in
    rw at_28 (unfold uleb128 in top_group f m p acc v holds.0 (omega arith) (rw at_28 at ha))
leb_loop-uleb128 (suc more) (suc f) m p acc s v hs hf ha hv holds = elim (dec_lt v 128) [
  | yes small ↦
      let e = uleb128-small more v small in
      rw e (last_group f m p acc s v (rw e at holds).0 small (omega arith) ha)
  | no large ↦
      let e = uleb128-large more v (omega arith) in
      let rest = rw e at holds in
      rw e (
        more_group f m p acc s v _ rest.0 (omega arith) ha (
          leb_loop-uleb128 more f m (suc p) (acc + v % 128 * 2 ^ s) (s + 7) (v / 128) (omega arith)
            (omega arith) (group_room acc v s ha) (omega (arith, pow-suc 128 (suc more))) rest.1))
]

-- Of an encoding of at most five bytes the reader returns the low 32 bits with their sign extended,
-- and the address behind the encoding.
pub read_uleb128-low32 :
    (m : Memory) (p v : ℕ)
    → v < 2 ^ 35
    → Holds m p (uleb128 4 v)
    → read_uleb128 m p ≡ done (sign_extend32 (v % 2 ^ 32), p + length (uleb128 4 v))
unfolding read_uleb128
read_uleb128-low32 m p v hv holds =
    let (leb, run, value, next) =
      leb_loop-uleb128 4 6 m p 0 0 v (omega arith) (omega arith) (omega arith) (omega arith)
        holds in
    rw run (ground (arith, value, next))

sign_extend32-low : (v : ℕ) → v < 2 ^ 31 → sign_extend32 (v % 2 ^ 32) ≡ v
unfolding sign_extend32
sign_extend32-low v h = ground arith

sign_extend32-high :
    (v : ℕ) → 2 ^ 31 ≤ v → v < 2 ^ 32 → sign_extend32 (v % 2 ^ 32) ≡ v + (2 ^ 64 - 2 ^ 32)
unfolding sign_extend32
sign_extend32-high v lo hi = ground arith

-- A number below 2^31 whose ULEB128 encoding stands at `p` is read back, with the pointer advanced
-- past the encoding.
pub read_uleb128-uleb128 :
    (m : Memory) (p v : ℕ)
    → v < 2 ^ 31
    → Holds m p (uleb128 4 v)
    → read_uleb128 m p ≡ done (v, p + length (uleb128 4 v))
read_uleb128-uleb128 m p v hv holds =
    read_uleb128-low32 m p v (omega arith) holds
    ∙ ap (λ (t : ℕ). done (t, p + length (uleb128 4 v))) (sign_extend32-low v hv)

-- A number from 2^31 up to 2^32 - 1 is read as that number plus 2^64 - 2^32.
pub read_uleb128_wide :
    (m : Memory) (p v : ℕ)
    → 2 ^ 31 ≤ v
    → v < 2 ^ 32
    → Holds m p (uleb128 4 v)
    → read_uleb128 m p ≡ done (v + (2 ^ 64 - 2 ^ 32), p + length (uleb128 4 v))
read_uleb128_wide m p v lo hi holds =
    read_uleb128-low32 m p v (omega arith) holds
    ∙ ap (λ (t : ℕ). done (t, p + length (uleb128 4 v))) (sign_extend32-high v lo hi)
