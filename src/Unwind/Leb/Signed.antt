-- ===== src/Unwind/Leb/Signed.antt =====
-- What the SLEB128 reader makes of an encoding.
use Prim.Native.Nat.{bit_or}
use llc.Common.{ℕ, zero, suc, ◌+◌, ◌-◌, ◌*◌, ◌/◌, ◌%◌, ◌^◌, ◌≤◌, ◌<◌, ◌≡◌, refl, arith}
use native.Mathlib.Nat.{pow-suc, pow-succ', div-div-eq-div-mul}
use llc.Common.{◌∙◌}
use llc.Common.{Run, done, ◌>>=◌, ltb, ◌==◌, ◌&&◌, not, if◌then◌else◌}
use llc.Common.{List, [], ◌∷◌}
use llc.Common.Bits.{bit_or-shifted}
use llc.Unwind.Memory.{Memory, Holds, sign_extend, sign_extend32}
use llc.Unwind.Leb.Rounds.{split_group, group_room, more_byte, last_byte}
use llc.Unwind.Leb.{Leb, shift_int, leb_loop, read_sleb128}

-- The `more + 1` groups of seven bits of `v`, lowest first.
unfoldable pub groups128 : ℕ → ℕ → List ℕ
groups128 zero v = v ∷ []
groups128 (suc more) v = (v % 128 + 128) ∷ groups128 more (v / 128)

-- The last round leaves the bits that were read, their number, and the byte with the sign in bit 6.
abbrev ReadsSigned : ℕ → ℕ → Memory → ℕ → ℕ → ℕ → ℕ → ℕ → ℕ → Type 0
ReadsSigned f n m p acc s v w top =
    (leb : Leb) × (leb_loop f m p acc s ≡ done leb)
    × (leb.result ≡ acc + v * 2 ^ s)
    × (leb.shift ≡ w)
    × (leb.byte ≡ top)
    × (leb.p ≡ p + n)

groups_loop :
    (more f : ℕ) (m : Memory) (p acc s v : ℕ)
    → s + 7 * more ≤ 21
    → more < f
    → acc < 2 ^ s
    → v < 128 ^ suc more
    → Holds m p (groups128 more v)
    → ReadsSigned f (suc more) m p acc s v (s + 7 * suc more) (v / 128 ^ more)
unfolding groups128
groups_loop more zero m p acc s v hs hf ha hv holds = absurd (omega arith)
groups_loop zero (suc f) m p acc s v hs hf ha hv holds = (
  record { result = acc + v * 2 ^ s; shift = s + 7; byte = v; p = suc p },
  last_byte f m p acc s v holds.0 (omega arith) (omega arith) ha,
  refl,
  omega arith,
  omega arith,
  omega arith,
)
groups_loop (suc more) (suc f) m p acc s v hs hf ha hv holds =
    let (leb, run, value, width, top, next) =
      groups_loop more f m (suc p) (acc + v % 128 * 2 ^ s) (s + 7) (v / 128) (omega arith)
        (omega arith) (group_room acc v s ha) (omega (arith, pow-suc 128 (suc more))) holds.1 in
    (
      leb,
      more_byte f m p acc s (v % 128) holds.0 (omega arith) (omega arith) ha ∙ run,
      omega (arith, split_group v s),
      omega arith,
      rw (pow-succ' 128 more) (top ∙ div-div-eq-div-mul v 128 (128 ^ more)),
      omega arith,
    )

-- The end of the routine, at one of the widths with which the loop can end.
abbrev finish : Leb → Run (ℕ × ℕ)
finish leb =
    if leb.byte / 64 % 2 == 1 && ltb leb.shift 64
    then (do ones ← shift_int (2 ^ 32 - 1) leb.shift; done (bit_or leb.result ones, leb.p))
    else done (leb.result, leb.p)

finish_lem :
    (leb : Leb) (w v n : ℕ)
    → w ≤ 28
    → v < 2 ^ w
    → leb.result ≡ v
    → leb.shift ≡ w
    → (leb.byte / 64 % 2 == 1) ≡ not (ltb v (2 ^ (w - 1)))
    → shift_int (2 ^ 32 - 1) w ≡ done (2 ^ 64 - 2 ^ w)
    → bit_or v (2 ^ 64 - 2 ^ w) ≡ v + (2 ^ 64 - 2 ^ w)
    → leb.p ≡ n
    → finish leb ≡ done (sign_extend w v, n)
unfolding sign_extend
finish_lem leb w v n hw hv value width sign shifted ored next = ground arith

shift_ones :
    (shift_int (2 ^ 32 - 1) 7 ≡ done (2 ^ 64 - 2 ^ 7))
    × (shift_int (2 ^ 32 - 1) 14 ≡ done (2 ^ 64 - 2 ^ 14))
    × (shift_int (2 ^ 32 - 1) 21 ≡ done (2 ^ 64 - 2 ^ 21))
    × (shift_int (2 ^ 32 - 1) 28 ≡ done (2 ^ 64 - 2 ^ 28))
unfolding shift_int sign_extend32
shift_ones = (refl, refl, refl, refl)

-- One to four groups of seven bits are read as that many bits of two's complement, widened to the
-- 64 bits of the result, and the pointer advances past them.
pub read_sleb128-groups128 :
    (m : Memory) (p more v : ℕ)
    → more ≤ 3
    → v < 128 ^ suc more
    → Holds m p (groups128 more v)
    → read_sleb128 m p ≡ done (sign_extend (7 * suc more) v, p + suc more)
unfolding read_sleb128
read_sleb128-groups128 m p more v hm hv holds =
    let (leb, run, value, width, top, next) =
      groups_loop more 6 m p 0 0 v (omega arith) (omega arith) (omega arith) hv holds in
    rw run (at_width more leb hm hv (omega arith) width top next)
  where
    at_width :
        (k : ℕ) (leb : Leb)
        → k ≤ 3
        → v < 128 ^ suc k
        → leb.result ≡ v
        → leb.shift ≡ 0 + 7 * suc k
        → leb.byte ≡ v / 128 ^ k
        → leb.p ≡ p + suc k
        → finish leb ≡ done (sign_extend (7 * suc k) v, p + suc k)
    at_width zero leb hk hv value width top next =
        finish_lem leb 7 v (p + 1) (omega arith) hv value width (ground arith) shift_ones.0
          (bit_or-shifted 7 v (2 ^ 57 - 1) hv) next
    at_width (suc zero) leb hk hv value width top next =
        finish_lem leb 14 v (p + 2) (omega arith) hv value width (ground arith) shift_ones.1
          (bit_or-shifted 14 v (2 ^ 50 - 1) hv) next
    at_width (suc (suc zero)) leb hk hv value width top next =
        finish_lem leb 21 v (p + 3) (omega arith) hv value width (ground arith) shift_ones.2
          (bit_or-shifted 21 v (2 ^ 43 - 1) hv) next
    at_width (suc (suc (suc zero))) leb hk hv value width top next =
        finish_lem leb 28 v (p + 4) (omega arith) hv value width (ground arith) shift_ones.3
          (bit_or-shifted 28 v (2 ^ 36 - 1) hv) next
    at_width (suc (suc (suc (suc k)))) leb hk hv value width top next = absurd (omega arith)
