-- ===== src/Unwind/Pointer/Fixed.antt =====
-- Pointers in the formats of fixed width, absolute or relative to their own address.
use llc.Common.{ℕ, ◌+◌, ◌*◌, ◌/◌, ◌%◌, ◌^◌, ◌<◌, ◌≡◌, arith}
use llc.Common.{done, ◌==◌, if◌then◌else◌, Bool, true, false}
use llc.Unwind.Memory.{Memory, Holds, bytes, load_word-bytes, sign_extend}
use llc.Unwind.Pointer.{read_value, add_relative, follow, read_encoded_pointer, dw_eh_pe_omit}

-- The DW_EH_PE_* formats whose value has a fixed number of bytes.
pub data Format : Type 0 where
  absptr udata2 udata4 udata8 sdata2 sdata4 sdata8 : Format

abbrev pub code : Format → ℕ
code absptr = 0x00
code udata2 = 0x02
code udata4 = 0x03
code udata8 = 0x04
code sdata2 = 0x0a
code sdata4 = 0x0b
code sdata8 = 0x0c

abbrev pub size : Format → ℕ
size absptr = 8
size udata2 = 2
size udata4 = 4
size udata8 = 8
size sdata2 = 2
size sdata4 = 4
size sdata8 = 8

-- The 64-bit value that the bytes of `v` stand for.
abbrev pub meaning : Format → ℕ → ℕ
meaning absptr v = v
meaning udata2 v = v
meaning udata4 v = v
meaning udata8 v = v
meaning sdata2 v = sign_extend 16 v
meaning sdata4 v = sign_extend 32 v
meaning sdata8 v = sign_extend 64 v

-- The byte that names a format, DW_EH_PE_pcrel and DW_EH_PE_indirect.
abbrev pub encoding : Format → Bool → Bool → ℕ
encoding f pcrel indirect =
    code f + (if pcrel then 0x10 else 0x00) + (if indirect then 0x80 else 0x00)

-- The address that a value read at `p` stands for.
abbrev pub resolve : Bool → ℕ → ℕ → ℕ
resolve pcrel p value = if pcrel then (value + p) % 2 ^ 64 else value

-- The pointer at that address, or the address itself.
abbrev pub PointsTo : Memory → Bool → ℕ → ℕ → Type 0
PointsTo m true address target = (target < 2 ^ 64) × Holds m address (bytes 8 target)
PointsTo m false address target = address ≡ target

module _ (m : Memory) (p v : ℕ) where
  read_value_lem :
      (f : Format)
      → v < 256 ^ size f
      → Holds m p (bytes (size f) v)
      → read_value (code f) m p ≡ done (meaning f v, p + size f)
  unfolding read_value
  read_value_lem absptr h holds = rw (load_word-bytes 8 v m p h holds)
  read_value_lem udata2 h holds = rw (load_word-bytes 2 v m p h holds)
  read_value_lem udata4 h holds = rw (load_word-bytes 4 v m p h holds)
  read_value_lem udata8 h holds = rw (load_word-bytes 8 v m p h holds)
  read_value_lem sdata2 h holds = rw (load_word-bytes 2 v m p h holds)
  read_value_lem sdata4 h holds = rw (load_word-bytes 4 v m p h holds)
  read_value_lem sdata8 h holds = rw (load_word-bytes 8 v m p h holds)

follow_lem :
    (m : Memory) (indirect : Bool) (address target : ℕ)
    → PointsTo m indirect address target
    → follow (if indirect then 1 else 0) m address ≡ done target
unfolding follow
follow_lem m true address target (h, holds) = load_word-bytes 8 target m address h holds
follow_lem m false address target e = ground arith

add_relative_lem :
    (pcrel : Bool) (p value : ℕ)
    → add_relative (if pcrel then 0x10 else 0x00) p value ≡ done (resolve pcrel p value)
unfolding add_relative
add_relative_lem pcrel p value = ground arith

-- The three fields of an encoding byte, at each format.
fields :
    (f : Format) (pcrel indirect : Bool)
    → (encoding f pcrel indirect % 16 ≡ code f)
      × (encoding f pcrel indirect / 16 % 8 * 16 ≡ (if pcrel then 0x10 else 0x00))
      × (encoding f pcrel indirect / 128 % 2 ≡ (if indirect then 1 else 0))
      × (encoding f pcrel indirect == dw_eh_pe_omit ≡ false)
fields f pcrel indirect = ground arith

-- A value whose bytes stand at `p` in a format of fixed width is read as that value, widened with
-- its sign where the format has one, plus `p` under DW_EH_PE_pcrel, and followed through memory
-- under DW_EH_PE_indirect; the pointer advances past the bytes.
pub read_encoded_pointer-bytes :
    (m : Memory) (p v : ℕ) (f : Format) (pcrel indirect : Bool) (target : ℕ)
    → v < 256 ^ size f
    → Holds m p (bytes (size f) v)
    → PointsTo m indirect (resolve pcrel p (meaning f v)) target
    → read_encoded_pointer m p (encoding f pcrel indirect) ≡ done (target, p + size f)
unfolding read_encoded_pointer
read_encoded_pointer-bytes m p v f pcrel indirect target h holds points =
    let (format, application, deref, present) = fields f pcrel indirect in
    rw (
      present,
      format,
      application,
      deref,
      read_value_lem m p v f h holds,
      add_relative_lem pcrel p (meaning f v),
      follow_lem m indirect (resolve pcrel p (meaning f v)) target points,
    )
