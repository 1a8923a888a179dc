-- ===== src/Unwind/Pointer/Progress.antt =====
-- The reader of encoded pointers ends, and advances.
use llc.Common.{ℕ, ◌≤◌, ◌<◌, ◌≡◌, ◌≢◌, arith}
use llc.Common.{done, stuck, >>=-ne-stuck, >>=-eq-done}
use llc.Unwind.Memory.{Memory, load_word-ne-stuck}
use llc.Unwind.Leb.Total.{
  read_uleb128-ne-stuck, read_sleb128-ne-stuck, read_uleb128-lt, read_sleb128-lt,
}
use llc.Unwind.Pointer.{read_value, add_relative, follow, read_present, read_encoded_pointer}

read_value-ne-stuck : (format : ℕ) (m : Memory) (p : ℕ) → read_value format m p ≢ stuck
unfolding read_value
read_value-ne-stuck format m p = ground (
  arith,
  load_word-ne-stuck 8 m p,
  load_word-ne-stuck 4 m p,
  load_word-ne-stuck 2 m p,
  read_uleb128-ne-stuck m p,
  read_sleb128-ne-stuck m p,
)

follow-ne-stuck : (indirect : ℕ) (m : Memory) (result : ℕ) → follow indirect m result ≢ stuck
unfolding follow
follow-ne-stuck indirect m result = ground (arith, load_word-ne-stuck 8 m result)

add_relative-ne-stuck : (application p result : ℕ) → add_relative application p result ≢ stuck
unfolding add_relative
add_relative-ne-stuck application p result = ground arith

read_present-ne-stuck : (m : Memory) (p encoding : ℕ) → read_present m p encoding ≢ stuck
unfolding read_present
read_present-ne-stuck m p encoding =
    >>=-ne-stuck (read_value _ m p) _ (read_value-ne-stuck _ m p) (λ read.
      >>=-ne-stuck (add_relative _ p read.0) _ (add_relative-ne-stuck _ p read.0) (λ result.
        >>=-ne-stuck (follow _ m result) _ (follow-ne-stuck _ m result) (λ target e. cc)))

-- The reader ends on every encoding and on any bytes.
pub read_encoded_pointer-ne-stuck :
    (m : Memory) (p encoding : ℕ) → read_encoded_pointer m p encoding ≢ stuck
unfolding read_encoded_pointer
read_encoded_pointer-ne-stuck m p encoding = ground (arith, read_present-ne-stuck m p encoding)

read_value-lt :
    (format : ℕ) (m : Memory) (p value next : ℕ)
    → read_value format m p ≡ done (value, next)
    → p < next
unfolding read_value
read_value-lt format m p value next e =
    ground (arith, read_uleb128-lt m p value next, read_sleb128-lt m p value next)

read_present-lt :
    (m : Memory) (p encoding value next : ℕ)
    → read_present m p encoding ≡ done (value, next)
    → p < next
unfolding read_present
read_present-lt m p encoding value next e =
    let ((v, p'), read, e₁) = >>=-eq-done (read_value _ m p) _ e in
    let (result, added, e₂) = >>=-eq-done (add_relative _ p v) _ e₁ in
    let (target, followed, e₃) = >>=-eq-done (follow _ m result) _ e₂ in
    ground (arith, read_value-lt _ m p v p' read)

-- A pointer that is read moves `*data` forward, and DW_EH_PE_omit leaves it.
pub read_encoded_pointer-le :
    (m : Memory) (p encoding value next : ℕ)
    → read_encoded_pointer m p encoding ≡ done (value, next)
    → p ≤ next
unfolding read_encoded_pointer
read_encoded_pointer-le m p encoding value next e =
    ground (arith, read_present-lt m p encoding value next)
