-- ===== src/Tests/Unwind.antt =====
-- The theorems about lrt-unwind.c on concrete tables.
use llc.Common.{ℕ, ◌+◌, ◌-◌, ◌*◌, ◌^◌, ◌<◌, ◌≡◌, ◌≢◌, refl, arith, length}
use llc.Common.{true, false, none, List, [], ◌∷◌, done, stuck, ltb, get_elem?, if◌then◌else◌}
use llc.Unwind.Memory.{Memory, Holds, sign_extend, bytes}
use llc.Unwind.Leb.{read_uleb128, read_sleb128}
use llc.Unwind.Leb.RoundTrip.{uleb128, read_uleb128-uleb128, read_uleb128_wide}
use llc.Unwind.Leb.Signed.{groups128, read_sleb128-groups128}
use llc.Unwind.Pointer.{read_encoded_pointer}
use llc.Unwind.Pointer.Fixed.{sdata4, encoding, read_encoded_pointer-bytes}
use llc.Unwind.Lsda.{Query, l_exception_class, l_personality, pc_offset_of}
use llc.Unwind.Lsda.Sites.{Site, choose}
use llc.Unwind.Lsda.Total.{l_personality-ne-stuck}
use llc.Unwind.Lsda.Phases.{Agree, l_personality_phases}
use llc.Unwind.Lsda.Emit.{emit_lsda, emit_sites, verdict_of, l_personality-emit_lsda}

-- The bytes at an address.
abbrev image : ℕ → List ℕ → Memory
image base bs p = if ltb p base then none else get_elem? bs (p - base)

abbrev small : Memory
small = image 16 (uleb128 4 300)

small-Holds : Holds small 16 (uleb128 4 300)
unfolding uleb128
small-Holds = (refl, (refl, tt))

read_uleb128-uleb128_example : read_uleb128 small 16 ≡ done (300, 16 + length (uleb128 4 300))
read_uleb128-uleb128_example = read_uleb128-uleb128 small 16 300 (omega arith) small-Holds

abbrev wide : Memory
wide = image 16 (uleb128 4 (2 ^ 31 + 5))

wide-Holds : Holds wide 16 (uleb128 4 (2 ^ 31 + 5))
unfolding uleb128
wide-Holds = (refl, (refl, (refl, (refl, (refl, tt)))))

read_uleb128_wide_example :
    read_uleb128 wide 16
    ≡ done (2 ^ 31 + 5 + (2 ^ 64 - 2 ^ 32), 16 + length (uleb128 4 (2 ^ 31 + 5)))
read_uleb128_wide_example =
    read_uleb128_wide wide 16 (2 ^ 31 + 5) (omega arith) (omega arith) wide-Holds

-- The bytes of -2 as two groups.
abbrev minus_two : Memory
minus_two = image 8 (groups128 1 (128 * 128 - 2))

minus_two-Holds : Holds minus_two 8 (groups128 1 (128 * 128 - 2))
unfolding groups128
minus_two-Holds = (refl, (refl, tt))

read_sleb128-groups128_example :
    read_sleb128 minus_two 8 ≡ done (sign_extend (7 * 2) (128 * 128 - 2), 8 + 2)
read_sleb128-groups128_example =
    read_sleb128-groups128 minus_two 8 1 (128 * 128 - 2) (omega arith) (omega arith) minus_two-Holds

-- -16 as a 32-bit offset from its own address.
abbrev relative : Memory
relative = image 256 (bytes 4 (2 ^ 32 - 16))

relative-Holds : Holds relative 256 (bytes 4 (2 ^ 32 - 16))
unfolding bytes
relative-Holds = (refl, (refl, (refl, (refl, tt))))

read_encoded_pointer-bytes_example :
    read_encoded_pointer relative 256 (encoding sdata4 true false) ≡ done (240, 256 + 4)
unfolding sign_extend
read_encoded_pointer-bytes_example =
    read_encoded_pointer-bytes relative 256 (2 ^ 32 - 16) sdata4 true false 240 (omega arith)
      relative-Holds refl

-- Two call sites, of which the second has a landing pad.
abbrev plain : Site
plain = record { start = 0; length = 8; landing_pad = 0; action_entry = 0 }

abbrev guarded : Site
guarded = record { start = 8; length = 16; landing_pad = 64; action_entry = 1 }

abbrev lsda : Memory
lsda = image 4096 (emit_lsda (plain ∷ guarded ∷ []))

lsda-Holds : Holds lsda 4096 (emit_lsda (plain ∷ guarded ∷ []))
unfolding uleb128 bytes
lsda-Holds = (
  refl,
  (
    refl,
    (
      refl,
      (
        refl,
        (
          refl,
          (
            refl,
            (
              refl,
              (
                refl,
                (
                  refl,
                  (
                    refl,
                    (
                      refl,
                      (
                        refl,
                        (
                          refl,
                          (
                            refl,
                            (
                              refl,
                              (
                                refl,
                                (
                                  refl,
                                  (
                                    refl,
                                    (
                                      refl,
                                      (
                                        refl,
                                        (
                                          refl,
                                          (
                                            refl,
                                            (
                                              refl,
                                              (
                                                refl,
                                                (refl, (refl, (refl, (refl, (refl, (refl, tt)))))),
                                              ),
                                            ),
                                          ),
                                        ),
                                      ),
                                    ),
                                  ),
                                ),
                              ),
                            ),
                          ),
                        ),
                      ),
                    ),
                  ),
                ),
              ),
            ),
          ),
        ),
      ),
    ),
  ),
)

small_table : length (emit_sites (plain ∷ guarded ∷ [])) < 2 ^ 31
unfolding uleb128 bytes
small_table = omega arith

-- The pc is 10 bytes into the function.
abbrev query : Query
query = record {
  version = 1;
  lsda = 4096;
  exception_class = l_exception_class;
  exception_object = 7;
  ip = 1011;
  region_start = 1000;
}

l_personality-emit_lsda_example :
    l_personality lsda query 2
    ≡ done (verdict_of query 2 (choose (pc_offset_of query) (plain ∷ guarded ∷ [])))
l_personality-emit_lsda_example =
    l_personality-emit_lsda lsda query 2 (plain ∷ guarded ∷ []) (omega arith) (omega arith)
      (
        omega arith,
        omega arith,
        omega arith,
        omega arith,
        (omega arith, omega arith, omega arith, omega arith, tt),
      )
      small_table lsda-Holds

l_personality-ne-stuck_example : l_personality lsda query 2 ≢ stuck
l_personality-ne-stuck_example = l_personality-ne-stuck lsda query 2

l_personality_phases_example :
    Agree 7 l_exception_class (l_personality lsda query 1) (l_personality lsda query 2)
l_personality_phases_example = l_personality_phases 1 2 refl refl lsda query
