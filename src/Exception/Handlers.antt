-- ===== src/Exception/Handlers.antt =====
-- The chain of handler records of lrt-exception.c. A record is four words, in the order type,
-- catch, func, next.
pub mod Chain
use llc.Common.{ℕ, zero, suc, ◌+◌}
use llc.Common.{Bool, Run, done, fault, stuck, ◌>>=◌, ◌==◌, if◌then◌else◌}
use llc.Exception.Words.{Words, load_word}

abbrev pub catch_return : ℕ
catch_return = 0

abbrev pub catch_finally : ℕ
catch_finally = 1

abbrev pub catch_exception : ℕ
catch_exception = 2

-- nextExRecord: the code returns no value where `next` is null and the record catches no exception;
-- the use of the value is undefined behaviour.
unfoldable pub next_ex_record : Words → ℕ → Run ℕ
next_ex_record m r = do
  next ← load_word m (r + 24)
  if next == 0
      then (do type ← load_word m r; if type == catch_exception then done (r + 32) else fault)
      else done next

-- findMethodHandler, 0 for a null pointer. The fuel bounds the rounds.
unfoldable pub find_method_handler : ℕ → Words → ℕ → Run ℕ
find_method_handler zero m r = if r == 0 then done 0 else stuck
find_method_handler (suc fuel) m r =
    let outer = next_ex_record m r >>= λ r'. find_method_handler fuel m r' in
    if r == 0
    then done 0
    else (do type ← load_word m r; if type == catch_return then done r else outer)
