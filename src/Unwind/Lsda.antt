-- ===== src/Unwind/Lsda.antt =====
-- handleLsda and __l_personality of lrt-unwind.c: the search of a frame's call-site table for a
-- landing pad. The exception's class and the answers of the unwinder are arguments; its setters
-- are recorded as calls, in order. What the routine prints is left out.
pub mod Sites
pub mod Total
pub mod Phases
pub mod Emit
use llc.Common.{ℕ, zero, suc, ◌+◌, ◌-◌, ◌%◌, ◌^◌}
use llc.Common.{Bool, true, false, ◌&&◌, List, [], ◌∷◌}
use llc.Common.{Run, done, stuck, ◌>>=◌, ltb, leb, ◌==◌, if◌then◌else◌}
use llc.Unwind.Memory.{Memory, load}
use llc.Unwind.Leb.{read_uleb128}
use llc.Unwind.Pointer.{read_encoded_pointer, dw_eh_pe_omit}

-- The reason codes that the routine returns, without their prefix _URC_.
pub data Reason : Type 0 where
  continue_unwind handler_found install_context : Reason

-- A call of _Unwind_SetGR, on a data register by its index, or of _Unwind_SetIP.
pub data Call : Type 0 where
  set_gr : ℕ → ℕ → Call
  set_ip : ℕ → Call

pub record Verdict : Type 0 where
  pub reason : Reason
  pub calls : List Call

abbrev pub keep_unwinding : Verdict
keep_unwinding = record { reason = continue_unwind; calls = [] }

abbrev pub l_exception_class : ℕ
l_exception_class = 0x1ee71ee7de95de95

-- What does not change while the call-site table is walked.
pub record Frame : Type 0 where
  pub memory : Memory
  pub encoding : ℕ
  pub table_end : ℕ
  pub func_start : ℕ
  pub pc_offset : ℕ
  pub exception_class : ℕ
  pub exception_object : ℕ

-- `actions & _UA_SEARCH_PHASE`, for the unwinder's flag 1.
abbrev pub is_search : ℕ → Bool
is_search actions = actions % 2 == 1

-- The part of the loop behind the test that the pc lies in the range of a site with a landing pad.
unfoldable pub found : Frame → ℕ → ℕ → Verdict
found frame actions landing_pad =
    if is_search actions then record { reason = handler_found; calls = [] } else record {
      reason = install_context;
      calls =
          set_gr 0 frame.exception_object
          ∷ set_gr 1 (if frame.exception_class == l_exception_class then 2 else 4)
          ∷ set_ip ((frame.func_start + landing_pad) % 2 ^ 64)
          ∷ [];
    }

-- `while (callSitePtr < callSiteTableEnd)`.
unfoldable pub site_loop : ℕ → Frame → ℕ → ℕ → Run Verdict
site_loop zero frame actions call_site_ptr =
    if ltb call_site_ptr frame.table_end then stuck else done keep_unwinding
site_loop (suc fuel) frame actions call_site_ptr =
    let round : Run Verdict = do
      (start, p₁) ← read_encoded_pointer frame.memory call_site_ptr frame.encoding
      (length, p₂) ← read_encoded_pointer frame.memory p₁ frame.encoding
      (landing_pad, p₃) ← read_encoded_pointer frame.memory p₂ frame.encoding
      (action_entry, p₄) ← read_uleb128 frame.memory p₃
      let rest = site_loop fuel frame actions p₄
      if landing_pad == 0
          then rest
          else if leb start frame.pc_offset && ltb frame.pc_offset ((start + length) % 2 ^ 64)
          then done (found frame actions landing_pad)
          else rest
    in if ltb call_site_ptr frame.table_end then round else done keep_unwinding

-- The header's fields that are skipped, if they are present.
unfoldable pub skip_lp_start : Memory → ℕ → Run ℕ
skip_lp_start m p = do
  encoding ← load m p
  if encoding == dw_eh_pe_omit
      then done (suc p)
      else (do (start, p') ← read_encoded_pointer m (suc p) encoding; done p')

unfoldable pub skip_class_info : Memory → ℕ → Run ℕ
skip_class_info m p = do
  encoding ← load m p
  if encoding == dw_eh_pe_omit
      then done (suc p)
      else (do (offset, p') ← read_uleb128 m (suc p); done p')

-- What the unwinder hands over: _Unwind_GetIP, _Unwind_GetRegionStart, and the arguments.
pub record Query : Type 0 where
  pub version : ℕ
  pub lsda : ℕ
  pub exception_class : ℕ
  pub exception_object : ℕ
  pub ip : ℕ
  pub region_start : ℕ

-- `pc - funcStart`, where pc is the instruction pointer less one.
abbrev pub pc_offset_of : Query → ℕ
pc_offset_of q = (q.ip + (2 ^ 64 - 1) + (2 ^ 64 - q.region_start)) % 2 ^ 64

-- Each site takes a byte at least, so that the table's length in bytes is enough fuel.
unfoldable pub walk_table : Memory → Query → ℕ → ℕ → Run Verdict
walk_table m q actions p = do
  encoding ← load m p
  (length, start) ← read_uleb128 m (suc p)
  let table_length = length % 2 ^ 32
  site_loop table_length
      (record {
        memory = m;
        encoding = encoding;
        table_end = start + table_length;
        func_start = q.region_start;
        pc_offset = pc_offset_of q;
        exception_class = q.exception_class;
        exception_object = q.exception_object;
      })
      actions start

unfoldable pub handle_lsda : Memory → Query → ℕ → Run Verdict
handle_lsda m q actions =
    if leb (2 ^ 31) q.version
    then done keep_unwinding
    else if q.lsda == 0
    then done keep_unwinding
    else do p ← skip_lp_start m q.lsda; p' ← skip_class_info m p; walk_table m q actions p'

-- __l_personality: the query's `lsda` is what _Unwind_GetLanguageSpecificData answers.
unfoldable pub l_personality : Memory → Query → ℕ → Run Verdict
l_personality m q actions =
    if leb (2 ^ 31) q.version then done keep_unwinding else handle_lsda m q actions
