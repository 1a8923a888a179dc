-- ===== src/Unwind/Lsda/Sites.antt =====
-- A call-site table as a list, and what the walk over it answers.
use llc.Common.{ℕ, zero, suc, ◌+◌, ◌-◌, ◌%◌, ◌^◌, ◌≤◌, ◌<◌, ◌≡◌, arith}
use llc.Common.{Bool, false, ◌&&◌, List, [], ◌∷◌, Option, none, some}
use llc.Common.{done, ltb, leb, ◌==◌, if◌then◌else◌, lt→ltb}
use llc.Unwind.Memory.{Memory}
use llc.Unwind.Leb.{read_uleb128}
use llc.Unwind.Leb.Total.{read_uleb128-lt}
use llc.Unwind.Pointer.{read_encoded_pointer}
use llc.Unwind.Pointer.Progress.{read_encoded_pointer-le}
use llc.Unwind.Lsda.{Frame, Verdict, keep_unwinding, found, site_loop}

-- The four fields of a site take at least a byte.
pub site_advances :
    (m : Memory) (encoding p a p₁ b p₂ c p₃ d p₄ : ℕ)
    → read_encoded_pointer m p encoding ≡ done (a, p₁)
    → read_encoded_pointer m p₁ encoding ≡ done (b, p₂)
    → read_encoded_pointer m p₂ encoding ≡ done (c, p₃)
    → read_uleb128 m p₃ ≡ done (d, p₄)
    → p < p₄
site_advances m encoding p a p₁ b p₂ c p₃ d p₄ r₁ r₂ r₃ r₄ = omega (
  arith,
  read_encoded_pointer-le m p encoding a p₁ r₁,
  read_encoded_pointer-le m p₁ encoding b p₂ r₂,
  read_encoded_pointer-le m p₂ encoding c p₃ r₃,
  read_uleb128-lt m p₃ d p₄ r₄,
)

pub record Site : Type 0 where
  pub start : ℕ
  pub length : ℕ
  pub landing_pad : ℕ
  pub action_entry : ℕ

-- The bytes from `p` up to the end of the table are the sites.
pub data Table (m : Memory) (encoding table_end : ℕ) : ℕ → List Site → Type 0 where
  stop : {p : ℕ} → table_end ≤ p → Table m encoding table_end p []
  site :
      {p p₁ p₂ p₃ p₄ : ℕ} {sites : List Site} (s : Site)
      → p < table_end
      → read_encoded_pointer m p encoding ≡ done (s.start, p₁)
      → read_encoded_pointer m p₁ encoding ≡ done (s.length, p₂)
      → read_encoded_pointer m p₂ encoding ≡ done (s.landing_pad, p₃)
      → read_uleb128 m p₃ ≡ done (s.action_entry, p₄)
      → Table m encoding table_end p₄ sites
      → Table m encoding table_end p (s ∷ sites)

-- The site covers the pc, and has a landing pad.
abbrev pub covers : ℕ → Site → Bool
covers pc_offset s =
    if s.landing_pad == 0
    then false
    else (leb s.start pc_offset && ltb pc_offset ((s.start + s.length) % 2 ^ 64))

-- The first site that does.
unfoldable pub choose : ℕ → List Site → Option Site
choose pc_offset [] = none
choose pc_offset (s ∷ sites) = if covers pc_offset s then some s else choose pc_offset sites

abbrev pub answer : Frame → ℕ → Option Site → Verdict
answer frame actions none = keep_unwinding
answer frame actions (some s) = found frame actions s.landing_pad

-- The walk over a table answers by the first of its sites with a landing pad and the pc in its
-- range, and keeps unwinding where there is none.
pub site_loop-Table :
    (fuel : ℕ) (frame : Frame) (actions p : ℕ) (sites : List Site)
    → frame.table_end - p ≤ fuel
    → Table frame.memory frame.encoding frame.table_end p sites
    → site_loop fuel frame actions p ≡ done (answer frame actions (choose frame.pc_offset sites))
unfolding site_loop choose
site_loop-Table zero frame actions p [] h (stop e) = ground arith
site_loop-Table (suc fuel) frame actions p [] h (stop e) = ground arith
site_loop-Table zero frame actions p sites h (site s lt r₁ r₂ r₃ r₄ t) = absurd (omega arith)
site_loop-Table (suc fuel) frame actions p sites h
      (site {p₁ = p₁} {p₂ = p₂} {p₃ = p₃} {p₄ = p₄} {sites = rest} s lt r₁ r₂ r₃ r₄ t) =
    let shorter : frame.table_end - p₄ ≤ fuel =
      omega (arith, site_advances _ _ _ _ _ _ _ _ _ _ _ r₁ r₂ r₃ r₄) in
    rw (lt→ltb _ _ lt, r₁, r₂, r₃, r₄, site_loop-Table fuel frame actions p₄ rest shorter t)
      (ground arith)
