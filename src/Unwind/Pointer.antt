-- ===== src/Unwind/Pointer.antt =====
-- readEncodedPointer of lrt-unwind.c: pointers in the DWARF encodings DW_EH_PE_*.
pub mod Fixed
pub mod Progress
use llc.Common.{ℕ, ◌+◌, ◌*◌, ◌/◌, ◌%◌, ◌^◌}
use llc.Common.{Run, done, abort, ◌>>=◌, ◌==◌, if◌then◌else◌}
use llc.Unwind.Memory.{Memory, load_word, sign_extend}
use llc.Unwind.Leb.{read_uleb128, read_sleb128}

abbrev pub dw_eh_pe_omit : ℕ
dw_eh_pe_omit = 0xff

-- An unsigned value of `n` bytes, and a signed one, with the pointer behind it.
unfoldable pub read_unsigned : ℕ → Memory → ℕ → Run (ℕ × ℕ)
read_unsigned n m p = do value ← load_word n m p; done (value, p + n)

unfoldable pub read_signed : ℕ → Memory → ℕ → Run (ℕ × ℕ)
read_signed n m p = do value ← load_word n m p; done (sign_extend (8 * n) value, p + n)

-- `switch (encoding & 0x0F)`: the value, and the pointer behind it.
unfoldable pub read_value : ℕ → Memory → ℕ → Run (ℕ × ℕ)
unfolding read_unsigned read_signed
read_value format m p =
    if format == 0x00
    then read_unsigned 8 m p
    else if format == 0x01
    then read_uleb128 m p
    else if format == 0x09
    then read_sleb128 m p
    else if format == 0x02
    then read_unsigned 2 m p
    else if format == 0x03
    then read_unsigned 4 m p
    else if format == 0x04
    then read_unsigned 8 m p
    else if format == 0x0a
    then read_signed 2 m p
    else if format == 0x0b
    then read_signed 4 m p
    else if format == 0x0c
    then read_signed 8 m p
    else abort

-- `switch (encoding & 0x70)`: `data` is the address from which the value was read.
unfoldable pub add_relative : ℕ → ℕ → ℕ → Run ℕ
add_relative application data_address result =
    if application == 0x00
    then done result
    else if application == 0x10
    then done ((result + data_address) % 2 ^ 64)
    else abort

-- `encoding & 0x80`: the value is the address of the pointer.
unfoldable pub follow : ℕ → Memory → ℕ → Run ℕ
follow indirect m result = if indirect == 1 then load_word 8 m result else done result

-- The branch for an encoding other than DW_EH_PE_omit.
unfoldable pub read_present : Memory → ℕ → ℕ → Run (ℕ × ℕ)
read_present m p encoding = do
  (value, p') ← read_value (encoding % 16) m p
  result ← add_relative (encoding / 16 % 8 * 16) p value
  target ← follow (encoding / 128 % 2) m result
  done (target, p')

-- The pointer, and `*data` on return.
unfoldable pub read_encoded_pointer : Memory → ℕ → ℕ → Run (ℕ × ℕ)
unfolding read_present
read_encoded_pointer m p encoding =
    if encoding == dw_eh_pe_omit then done (0, p) else read_present m p encoding
