-- ===== src/Tests/Tables.antt =====
-- The theorems about the tables and the roots of lrt-unwind.c on concrete ones.
use llc.Common.{ℕ, ◌+◌, ◌-◌, ◌^◌, ◌<◌, ◌≡◌, ◌≢◌, refl, arith, length}
use llc.Common.{
  true, false, none, some, List, [], ◌∷◌, done, Returns, ltb, get_elem?, if◌then◌else◌,
}
use llc.Unwind.Memory.{Memory, Holds, bytes, sign_extend}
use llc.Unwind.Leb.{read_uleb128, read_sleb128}
use llc.Unwind.Leb.RoundTrip.{uleb128, read_uleb128-uleb128}
use llc.Unwind.Leb.Signed.{groups128, read_sleb128-groups128}
use llc.Unwind.Pointer.{read_encoded_pointer}
use llc.Unwind.Pointer.Fixed.{udata2, read_encoded_pointer-bytes}
use llc.Unwind.Lsda.{Frame, l_exception_class, site_loop}
use llc.Unwind.Lsda.Sites.{Site, Table, stop, site, choose, answer, site_loop-Table}
use llc.Unwind.Actions.{Chain, clause, filter, handle_action_value, handle_action_value-Chain}
use llc.Unwind.Roots.{Root, find_closest_root, add_root}
use llc.Unwind.Roots.Closest.{find_closest_root-lt, find_closest_root_not_first}
use llc.Unwind.Roots.Add.{Added, add_root-Added}

-- The bytes at an address.
abbrev image : ℕ → List ℕ → Memory
image base bs p = if ltb p base then none else get_elem? bs (p - base)

-- One call site in two-byte addresses: from 4, over 8 bytes, to the landing pad 32, with action 1.
abbrev one_site : Memory
one_site = image 64 (4 ∷ 0 ∷ 8 ∷ 0 ∷ 32 ∷ 0 ∷ 1 ∷ [])

abbrev the_site : Site
the_site = record { start = 4; length = 8; landing_pad = 32; action_entry = 1 }

abbrev frame : Frame
frame = record {
  memory = one_site;
  encoding = 0x02;
  table_end = 71;
  func_start = 1000;
  pc_offset = 6;
  exception_class = 5;
  exception_object = 9;
}

action_Holds : Holds one_site 70 (uleb128 4 1)
unfolding uleb128
action_Holds = (refl, tt)

two_bytes :
    (m : Memory) (p v : ℕ)
    → v < 256 ^ 2
    → Holds m p (bytes 2 v)
    → read_encoded_pointer m p 0x02 ≡ done (v, p + 2)
two_bytes m p v h holds = read_encoded_pointer-bytes m p v udata2 false false v h holds refl

read_action_one : read_uleb128 one_site 70 ≡ done (1, 71)
unfolding uleb128
read_action_one = read_uleb128-uleb128 one_site 70 1 (omega arith) action_Holds

one_site-Table : Table one_site 0x02 71 64 (the_site ∷ [])
unfolding bytes
one_site-Table =
    site the_site (omega arith) (two_bytes one_site 64 4 (omega arith) (refl, (refl, tt)))
      (two_bytes one_site 66 8 (omega arith) (refl, (refl, tt)))
      (two_bytes one_site 68 32 (omega arith) (refl, (refl, tt))) read_action_one
      (stop (omega arith))

site_loop-Table_example : site_loop 7 frame 1 64 ≡ done (answer frame 1 (choose 6 (the_site ∷ [])))
site_loop-Table_example = site_loop-Table 7 frame 1 64 (the_site ∷ []) (omega arith) one_site-Table

-- A record without a clause, of which the next is one byte behind the offset, and a clause.
abbrev actions : Memory
actions = image 8 (0 ∷ 1 ∷ 1 ∷ 0 ∷ [])

byte_at :
    (p v : ℕ) → v < 64 → Holds actions p (groups128 0 v) → read_sleb128 actions p ≡ done (v, p + 1)
unfolding sign_extend
byte_at p v h holds =
    rw (read_sleb128-groups128 actions p 0 v (omega arith) (omega arith) holds) (ground arith)

actions-Chain : Chain actions 8 1
unfolding groups128
actions-Chain =
    filter (byte_at 8 0 (omega arith) (refl, tt)) (byte_at 9 1 (omega arith) (refl, tt)) refl refl
      (clause (byte_at 10 1 (omega arith) (refl, tt)) (byte_at 11 0 (omega arith) (refl, tt)) refl)

handle_action_value-Chain_example :
    handle_action_value 2 actions true 8 l_exception_class ≡ done (1, some 2)
handle_action_value-Chain_example =
    handle_action_value-Chain 2 actions 8 1 actions-Chain (omega arith)

-- Two ranges, far from 2 ^ 30.
abbrev roots : List Root
roots = record { low = 2 ^ 29; high = 2 ^ 29 + 64 } ∷ record { low = 4096; high = 8192 } ∷ []

find_closest_root-lt_example :
    (i : ℕ) × (find_closest_root (2 ^ 30) roots ≡ some i) × (i < length roots)
find_closest_root-lt_example = find_closest_root-lt (2 ^ 30) roots (omega arith)

find_closest_root_not_first_example : find_closest_root (2 ^ 30) roots ≢ some 0
find_closest_root_not_first_example =
    find_closest_root_not_first (2 ^ 30) (record { low = 2 ^ 29; high = 2 ^ 29 + 64 })
      (record { low = 4096; high = 8192 }) []
      (omega arith, omega arith, refl, (omega arith, omega arith, refl, tt))

add_root-Added_example : Returns (add_root 5000 roots) (λ result. Added 5000 roots result.0)
add_root-Added_example =
    add_root-Added 5000 roots (omega arith) (omega arith)
      ((omega arith, λ e. omega arith), ((omega arith, λ e. omega arith), tt))
