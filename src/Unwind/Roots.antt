-- ===== src/Unwind/Roots.antt =====
-- __find_closest_root and __add_root of lrt-unwind.c: the NUM_ROOT address ranges that are
-- registered with the collector. What the routines print is left out.
pub mod Add
pub mod Closest
use llc.Common.{ℕ, zero, suc, ◌+◌, ◌-◌, ◌*◌, ◌%◌, ◌^◌}
use llc.Common.{Bool, true, false, ◌&&◌, ◌||◌, not, Option, none, some, List, [], ◌∷◌, get_or, set}
use llc.Common.{Run, done, abort, ltb, leb, ◌==◌, if◌then◌else◌}

pub record Root : Type 0 where
  pub low : ℕ
  pub high : ℕ

abbrev pub unused : Root
unused = record { low = 0; high = 0 }

abbrev pub max_distance : ℕ
max_distance = 256 * 1024

-- `p >= r->low - MAX_DISTANCE && p <= r->high + MAX_DISTANCE`, on 64-bit addresses.
abbrev pub is_close : ℕ → Root → Bool
is_close p r =
    leb ((r.low + (2 ^ 64 - max_distance)) % 2 ^ 64) p && leb p ((r.high + max_distance) % 2 ^ 64)

-- The first loop: the first root that is close, or root 0 where it is not in use.
unfoldable pub close_loop : ℕ → ℕ → List Root → Option ℕ
close_loop p i [] = none
close_loop p i (r ∷ roots) =
    if (i == 0 && r.low == 0) || is_close p r then some i else close_loop p (i + 1) roots

-- The second loop: the first root that is not in use.
unfoldable pub unused_loop : ℕ → List Root → Option ℕ
unused_loop i [] = none
unused_loop i (r ∷ roots) = if r.low == 0 then some i else unused_loop (i + 1) roots

-- `int d = a - b`: the low 32 bits. `d < distance` compares it, with its sign, with an int64 that
-- holds an earlier such value.
abbrev pub int_difference : ℕ → ℕ → ℕ
int_difference a b = (a + 2 ^ 64 - b) % 2 ^ 32

abbrev pub signed_ltb : ℕ → ℕ → Bool
signed_ltb d e = ltb ((d + 2 ^ 31) % 2 ^ 32) ((e + 2 ^ 31) % 2 ^ 32)

-- `closest` and `distance`, with the index of `closest`.
pub record Best : Type 0 where
  pub index : ℕ
  pub closest : Root
  pub distance : ℕ

abbrev pub contains : ℕ → Root → Bool
contains p r = not (ltb p r.low) && not (ltb r.high p)

-- A round of the third loop on a root `r` whose predecessor does not contain the pointer: the code
-- measures `d` from `closest`.
unfoldable pub consider : ℕ → Best → ℕ → Root → Best
consider p best i r =
    let c = best.closest in
    let d = if ltb p c.low then int_difference c.low p else int_difference p c.high in
    if best.distance == 0 || signed_ltb d best.distance
    then record { index = i; closest = r; distance = d }
    else best

-- The third loop from its second round on.
unfoldable pub least_bad_loop : ℕ → Best → ℕ → List Root → ℕ
least_bad_loop p best i [] = best.index
least_bad_loop p best i (r ∷ roots) =
    let rest = least_bad_loop p (consider p best i r) (i + 1) roots in
    if contains p best.closest then i else rest

unfoldable pub least_bad : ℕ → List Root → Option ℕ
least_bad p [] = none
least_bad p (r ∷ roots) =
    some (least_bad_loop p (record { index = 0; closest = r; distance = 0 }) 1 roots)

-- The index of the root, for a null pointer none.
unfoldable pub find_closest_root : ℕ → List Root → Option ℕ
find_closest_root p roots = elim (close_loop p 0 roots) [
  | some i ↦ some i
  | none ↦ elim (unused_loop 0 roots) [ some i ↦ some i | none ↦ least_bad p roots ]
]

-- The collector's GC_remove_roots and GC_add_roots, with their arguments.
pub data GcCall : Type 0 where
  gc_remove_roots : ℕ → ℕ → GcCall
  gc_add_roots : ℕ → ℕ → GcCall

-- The new range of a root.
abbrev pub widen : ℕ → Root → Root
widen g c = record {
  low = if c.low == 0 || ltb g c.low then g else c.low;
  high = if c.high == 0 || ltb c.high g then g else c.high;
}

abbrev pub gc_calls : Root → Root → List GcCall
gc_calls old new =
    if old.low == new.low && old.high == new.high
    then []
    else if old.low == 0
    then gc_add_roots new.low (new.high + 8) ∷ []
    else gc_remove_roots old.low (old.high + 8) ∷ gc_add_roots new.low (new.high + 8) ∷ []

unfoldable pub add_root : ℕ → List Root → Run (List Root × List GcCall)
add_root g roots = elim (find_closest_root g roots) [
  | none ↦ abort
  | some i ↦
      let old = get_or roots i unused in
      let new = widen g old in done (set roots i new, gc_calls old new)
]
