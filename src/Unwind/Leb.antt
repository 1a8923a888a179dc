-- ===== src/Unwind/Leb.antt =====
-- readULEB128 and readSLEB128 of lrt-unwind.c.
mod Rounds
pub mod RoundTrip
pub mod Signed
pub mod Total
use Prim.Native.Nat.{bit_or}
use llc.Common.{ℕ, zero, suc, ◌+◌, ◌-◌, ◌*◌, ◌/◌, ◌%◌, ◌^◌, ◌&&◌}
use llc.Common.{Run, done, fault, stuck, ◌>>=◌, ltb, ◌==◌, if◌then◌else◌}
use llc.Unwind.Memory.{Memory, load, sign_extend32}

-- The locals of either routine when its loop ends, `p` behind the bytes that were read.
pub record Leb : Type 0 where
  pub result : ℕ
  pub shift : ℕ
  pub byte : ℕ
  pub p : ℕ

-- `x << shift` on an `int` x, widened to uintptr_t. The shift keeps the low 32 bits, as GCC defines
-- it also where the sign bit changes; a count of 32 or more is undefined.
unfoldable pub shift_int : ℕ → ℕ → Run ℕ
shift_int x shift = if ltb shift 32 then done (sign_extend32 (x * 2 ^ shift % 2 ^ 32)) else fault

-- The loop that the two routines share.
unfoldable pub leb_loop : ℕ → Memory → ℕ → ℕ → ℕ → Run Leb
leb_loop zero m p result shift = stuck
leb_loop (suc fuel) m p result shift = do
  byte ← load m p
  group ← shift_int (byte % 128) shift
  let result' = bit_or result group
  let rest = leb_loop fuel m (suc p) result' (shift + 7)
  if byte / 128 % 2 == 1
      then rest
      else done (record { result = result'; shift = shift + 7; byte = byte; p = suc p })

-- The count passes 31 in the sixth round, so that six rounds of fuel are enough.
unfoldable pub read_uleb128 : Memory → ℕ → Run (ℕ × ℕ)
read_uleb128 m p = do leb ← leb_loop 6 m p 0 0; done (leb.result, leb.p)

-- `~0 << shift` has an `int` on its left too, and is read as GCC does.
unfoldable pub read_sleb128 : Memory → ℕ → Run (ℕ × ℕ)
read_sleb128 m p = do
  leb ← leb_loop 6 m p 0 0
  if leb.byte / 64 % 2 == 1 && ltb leb.shift 64
      then (do ones ← shift_int (2 ^ 32 - 1) leb.shift; done (bit_or leb.result ones, leb.p))
      else done (leb.result, leb.p)
