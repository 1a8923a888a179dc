-- ===== src/Unwind/Lsda/Emit.antt =====
-- The exception table that a compiler emits for a frame, and the personality routine on it.
use llc.Common.{ℕ, suc, ◌+◌, ◌%◌, ◌^◌, ◌<◌, ◌≡◌, ◌≢◌, refl, arith}
use llc.Common.{Option, none, some, false, List, [], ◌∷◌, ◌++◌, length, length-append}
use llc.Common.{done, if◌then◌else◌}
use llc.Unwind.Memory.{Memory, Holds, Holds-append, bytes, length-bytes}
use llc.Unwind.Leb.{read_uleb128}
use llc.Unwind.Leb.RoundTrip.{uleb128, read_uleb128-uleb128}
use llc.Unwind.Pointer.{read_encoded_pointer, dw_eh_pe_omit}
use llc.Unwind.Pointer.Fixed.{udata4, read_encoded_pointer-bytes}
use llc.Unwind.Lsda.Phases.{enters}
use llc.Unwind.Lsda.{
  Verdict, keep_unwinding, handler_found, is_search, found, Frame, Query, pc_offset_of,
  skip_lp_start, skip_class_info, walk_table, handle_lsda, l_personality,
}
use llc.Unwind.Lsda.Sites.{Site, Table, stop, site, choose, answer, site_loop-Table}

-- The sites with their three addresses in the format DW_EH_PE_udata4.
abbrev pub emit_sites : List Site → List ℕ
emit_sites [] = []
emit_sites (s ∷ sites) =
    bytes 4 s.start
    ++ (bytes 4 s.length
        ++ (bytes 4 s.landing_pad ++ (uleb128 4 s.action_entry ++ emit_sites sites)))

-- No base for the landing pads, no class information, and the table.
abbrev pub emit_lsda : List Site → List ℕ
emit_lsda sites =
    dw_eh_pe_omit
    ∷ dw_eh_pe_omit
    ∷ 0x03
    ∷ (uleb128 4 (length (emit_sites sites)) ++ emit_sites sites)

abbrev pub Fits : List Site → Type 0
Fits [] = Unit
Fits (s ∷ sites) =
    (s.start < 2 ^ 32)
    × (s.length < 2 ^ 32)
    × (s.landing_pad < 2 ^ 32)
    × (s.action_entry < 2 ^ 31)
    × Fits sites

module _ (m : Memory) (p v : ℕ) (rest : List ℕ) where
  read_udata4 :
      v < 2 ^ 32
      → Holds m p (bytes 4 v ++ rest)
      → (read_encoded_pointer m p 0x03 ≡ done (v, p + 4)) × Holds m (p + 4) rest
  read_udata4 h holds =
      let (front, back) = Holds-append m p (bytes 4 v) rest holds in
      (
        read_encoded_pointer-bytes m p v udata4 false false v (omega arith) front refl,
        rw (length-bytes 4 v) at back,
      )

  read_action :
      v < 2 ^ 31
      → Holds m p (uleb128 4 v ++ rest)
      → (read_uleb128 m p ≡ done (v, p + length (uleb128 4 v)))
        × Holds m (p + length (uleb128 4 v)) rest
  read_action h holds =
      let (front, back) = Holds-append m p (uleb128 4 v) rest holds in
      (read_uleb128-uleb128 m p v h front, back)

length-emit_sites :
    (s : Site) (sites : List Site)
    → length (emit_sites (s ∷ sites))
      ≡ 12 + (length (uleb128 4 s.action_entry) + length (emit_sites sites))
length-emit_sites s sites = omega (
  arith,
  length-append (bytes 4 s.start) (
      bytes 4 s.length
      ++ (bytes 4 s.landing_pad ++ (uleb128 4 s.action_entry ++ emit_sites sites))),
  length-append (bytes 4 s.length)
      (bytes 4 s.landing_pad ++ (uleb128 4 s.action_entry ++ emit_sites sites)),
  length-append (bytes 4 s.landing_pad) (uleb128 4 s.action_entry ++ emit_sites sites),
  length-append (uleb128 4 s.action_entry) (emit_sites sites),
  length-bytes 4 s.start,
  length-bytes 4 s.length,
  length-bytes 4 s.landing_pad,
)

emit_sites-Table :
    (m : Memory) (p table_end : ℕ) (sites : List Site)
    → Fits sites
    → p + length (emit_sites sites) ≡ table_end
    → Holds m p (emit_sites sites)
    → Table m 0x03 table_end p sites
emit_sites-Table m p table_end [] fits e holds = stop (omega arith)
emit_sites-Table m p table_end (s ∷ sites) (h₁, h₂, h₃, h₄, fits) e holds =
    let (start, rest₁) = read_udata4 m p s.start _ h₁ holds in
    let (extent, rest₂) = read_udata4 m (p + 4) s.length _ h₂ rest₁ in
    let (pad, rest₃) = read_udata4 m (p + 4 + 4) s.landing_pad _ h₃ rest₂ in
    let (action, rest₄) = read_action m (p + 4 + 4 + 4) s.action_entry _ h₄ rest₃ in
    site s (omega (arith, length-emit_sites s sites)) start extent pad action (
      emit_sites-Table m (p + 4 + 4 + 4 + length (uleb128 4 s.action_entry)) table_end sites fits
        (omega (arith, length-emit_sites s sites)) rest₄)

-- The frame that the routine reads off the table's header.
abbrev pub frame_of : Memory → Query → ℕ → Frame
frame_of m q table_end = record {
  memory = m;
  encoding = 0x03;
  table_end = table_end;
  func_start = q.region_start;
  pc_offset = pc_offset_of q;
  exception_class = q.exception_class;
  exception_object = q.exception_object;
}

walk_table-emit :
    (m : Memory) (q : Query) (actions p : ℕ) (sites : List Site)
    → Fits sites
    → length (emit_sites sites) < 2 ^ 31
    → Holds m p (0x03 ∷ (uleb128 4 (length (emit_sites sites)) ++ emit_sites sites))
    → (table_end : ℕ) × (walk_table m q actions p
        ≡ done (answer (frame_of m q table_end) actions (choose (pc_offset_of q) sites)))
unfolding walk_table
walk_table-emit m q actions p sites fits small (e, holds) =
    let (size, table) = read_action m (suc p) (length (emit_sites sites)) _ small holds in
    let table_end =
      suc p + length (uleb128 4 (length (emit_sites sites))) + length (emit_sites sites) in
    let kept : length (emit_sites sites) % 2 ^ 32 ≡ length (emit_sites sites) = omega arith in
    (
      table_end,
      ground (
        arith,
        e,
        size,
        kept,
        site_loop-Table (length (emit_sites sites)) (frame_of m q table_end) actions _ sites
            (omega arith) (emit_sites-Table m _ table_end sites fits refl table),
      ),
    )

skip_lp_start_omit :
    (m : Memory) (p : ℕ) → m p ≡ some dw_eh_pe_omit → skip_lp_start m p ≡ done (suc p)
unfolding skip_lp_start
skip_lp_start_omit m p e = ground (arith, e)

skip_class_info_omit :
    (m : Memory) (p : ℕ) → m p ≡ some dw_eh_pe_omit → skip_class_info m p ≡ done (suc p)
unfolding skip_class_info
skip_class_info_omit m p e = ground (arith, e)

-- What the unwinder is told about a frame: to go on, that it has a handler, or to enter it.
abbrev pub verdict_of : Query → ℕ → Option Site → Verdict
verdict_of q actions none = keep_unwinding
verdict_of q actions (some s) =
    if is_search actions
    then record { reason = handler_found; calls = [] }
    else enters q.exception_object q.exception_class ((q.region_start + s.landing_pad) % 2 ^ 64)

answer-verdict_of :
    (m : Memory) (q : Query) (table_end actions : ℕ) (chosen : Option Site)
    → answer (frame_of m q table_end) actions chosen ≡ verdict_of q actions chosen
unfolding found
answer-verdict_of m q table_end actions none = refl
answer-verdict_of m q table_end actions (some s) = refl

-- On the table that is emitted for a list of call sites, whose addresses fit 32 bits, the routine
-- answers by the first site that has a landing pad and whose range holds the pc: the search phase
-- reports a handler, and any other enters that landing pad. Without such a site both go on.
pub l_personality-emit_lsda :
    (m : Memory) (q : Query) (actions : ℕ) (sites : List Site)
    → q.version < 2 ^ 31
    → q.lsda ≢ 0
    → Fits sites
    → length (emit_sites sites) < 2 ^ 31
    → Holds m q.lsda (emit_lsda sites)
    → l_personality m q actions ≡ done (verdict_of q actions (choose (pc_offset_of q) sites))
unfolding l_personality handle_lsda
l_personality-emit_lsda m q actions sites hv hl fits small (e₁, (e₂, rest)) =
    let (table_end, e₃) = walk_table-emit m q actions _ sites fits small rest in
    ground (
      arith,
      e₃,
      skip_lp_start_omit m q.lsda e₁,
      skip_class_info_omit m _ e₂,
      answer-verdict_of m q table_end actions (choose (pc_offset_of q) sites),
    )
