-- ===== src/Unwind/Roots/Add.antt =====
-- What __add_root does to the ranges.
use llc.Common.{ℕ, zero, suc, ◌≤◌, ◌<◌, ◌≡◌, ◌≢◌, arith}
use llc.Common.{some, List, [], ◌∷◌, get_or, set, length}
use llc.Common.{◌⊎◌, done, Returns, get_elem?, get_elem?-set_self, get_elem?-set_ne}
use llc.Unwind.Roots.{Root, unused, widen, gc_calls, find_closest_root, add_root}
use llc.Unwind.Roots.Closest.{find_closest_root-lt}

-- A root is unused, with both ends null, or a range.
abbrev pub IsRange : Root → Type 0
IsRange r = (r.low ≤ r.high) × (r.low ≡ 0 → r.high ≡ 0)

abbrev pub AllRanges : List Root → Type 0
AllRanges [] = Unit
AllRanges (r ∷ roots) = IsRange r × AllRanges roots

-- The new range covers the address and what the old one covered, and no more than both need.
pub record Covers (g : ℕ) (old new : Root) : Type 0 where
  pub below : new.low ≤ g
  pub above : g ≤ new.high
  pub low_kept : old.low ≢ 0 → new.low ≤ old.low
  pub high_kept : old.high ≤ new.high
  pub low_tight : (new.low ≡ g) ⊎ (new.low ≡ old.low)
  pub high_tight : (new.high ≡ g) ⊎ (new.high ≡ old.high)
  pub in_use : new.low ≢ 0

widen-Covers : (g : ℕ) (old : Root) → 0 < g → IsRange old → Covers g old (widen g old)
widen-Covers g old h (ordered, empty) = ground arith

widen-IsRange : (g : ℕ) (old : Root) → 0 < g → IsRange old → IsRange (widen g old)
widen-IsRange g old h (ordered, empty) = ground arith

AllRanges-get_or : (roots : List Root) (i : ℕ) → AllRanges roots → IsRange (get_or roots i unused)
AllRanges-get_or [] i h = omega arith
AllRanges-get_or (r ∷ roots) zero h = h.0
AllRanges-get_or (r ∷ roots) (suc i) h = AllRanges-get_or roots i h.1

AllRanges-set :
    (roots : List Root) (i : ℕ) (r : Root) → AllRanges roots → IsRange r → AllRanges (set roots i r)
AllRanges-set [] i r h hr = tt
AllRanges-set (s ∷ roots) zero r h hr = (hr, h.1)
AllRanges-set (s ∷ roots) (suc i) r h hr = (h.0, AllRanges-set roots i r h.1 hr)

-- The ranges after the call: that of one root is widened, all others stay.
pub record Added (g : ℕ) (roots roots' : List Root) : Type 0 where
  pub index : ℕ
  pub inside : index < length roots
  pub new : Root
  pub written : get_elem? roots' index ≡ some new
  pub covers : Covers g (get_or roots index unused) new
  pub others : (j : ℕ) → index ≢ j → get_elem? roots' j ≡ get_elem? roots j
  pub ranges : AllRanges roots'

add_root-some :
    (g : ℕ) (roots : List Root) (i : ℕ)
    → find_closest_root g roots ≡ some i
    → add_root g roots
      ≡ done (
        set roots i (widen g (get_or roots i unused)),
        gc_calls (get_or roots i unused) (widen g (get_or roots i unused)),
      )
unfolding add_root
add_root-some g roots i e = ground (arith, e)

-- On a table of proper ranges that is not empty, adding an address returns, the address and all
-- that the chosen root covered lie in that root's new range, which is no wider than both need, no
-- other root changes, and the table again consists of proper ranges.
pub add_root-Added :
    (g : ℕ) (roots : List Root)
    → 0 < g
    → 0 < length roots
    → AllRanges roots
    → Returns (add_root g roots) (λ result. Added g roots result.0)
add_root-Added g roots hg h ranges =
    let (i, e, inside) = find_closest_root-lt g roots h in
    let old = get_or roots i unused in
    let proper = AllRanges-get_or roots i ranges in
    rw (add_root-some g roots i e) (record {
      index = i;
      inside = inside;
      new = widen g old;
      written = get_elem?-set_self roots i (widen g old) inside;
      covers = widen-Covers g old hg proper;
      others = λ j ne. get_elem?-set_ne roots (widen g old) ne;
      ranges = AllRanges-set roots i (widen g old) ranges (widen-IsRange g old hg proper);
    })
