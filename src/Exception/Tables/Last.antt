-- ===== src/Exception/Tables/Last.antt =====
-- A lookup in one table whose methods stand in order: before its length is known, and after.
use llc.Common.{ℕ, zero, suc, ◌+◌, ◌-◌, ◌≤◌, ◌<◌, ◌≡◌, ◌⊎◌, inl, inr, ◌∙◌, arith}
use llc.Common.{none, some, List, length, get_elem?, get_elem?-lt}
use llc.Common.{done}
use llc.Exception.Tables.{UnwindRecord, stop, chop, middle, binary_search, search_table}
use llc.Exception.Tables.Linear.{linear_search-count, linear_search-finds}
use llc.Exception.Tables.Binary.{
  IsOrdered, record_at-inside, ℕ_lt-cases, binary_search-finds, round_up, round_stop, chop_below,
}

module _ (rip : ℕ) (table : List UnwindRecord) (ordered : IsOrdered table) (k : ℕ)
    (a : UnwindRecord) (at_k : get_elem? table k ≡ some a) where
  open ordered use {fits, before}

  -- The first lookup scans: it finds the method whose range from its start up to its end, the end
  -- left out, holds the address, and learns the table's length.
  pub search_table_first :
      a.method_start ≤ rip
      → rip < a.method_start + a.method_length
      → search_table rip table 0 ≡ done (some a, length table)
  unfolding search_table
  search_table_first lo hi =
      let found =
        linear_search-finds rip table none 0 k a at_k (ground (arith, fits k a at_k))
          (λ j b h e. ground (arith, before k j a b h at_k e)) in
      ground (arith, found, linear_search-count rip table none 0)

  module _ (after : a.method_start < rip) (inside : rip < a.method_start + a.method_length) where
    -- In a table in order whose length is known, the lookup finds the method for an address behind its
    -- start and before its end, unless the method is the last of several.
    pub search_table_again :
        (k + 1 < length table) ⊎ (length table ≡ 1)
        → k < length table
        → search_table rip table (length table) ≡ done (some a, length table)
    unfolding search_table
    search_table_again place h =
        let found =
          binary_search-finds rip table ordered k a at_k after inside (length table) 0
            (length table - 1) (omega arith) (omega arith) (omega arith) in
        ground (arith, found)

    chop_miss :
        (p r : ℕ) (m : UnwindRecord)
        → get_elem? table r ≡ some m
        → r ≡ p
        → r < k
        → chop rip table p r ≡ stop none
    unfolding chop
    chop_miss p r m at_r e h =
        ground (arith, record_at-inside table r m at_r, fits r m at_r, before r k m a h at_r at_k)

    -- The search narrows down to the method before the last one.
    binary_search_misses :
        (fuel p q : ℕ)
        → k ≡ q
        → p < q
        → q < length table
        → q - p < fuel
        → binary_search fuel rip table p q ≡ done none
    binary_search_misses zero p q e h hq enough = absurd (omega arith)
    binary_search_misses (suc fuel) p q e h hq enough =
        let (m, at_r) = get_elem?-lt table (middle p q) (omega arith) in
        elim (ℕ_lt-cases p (middle p q)) [
          | inl inner ↦
              round_up fuel rip table p q (
                chop_below rip table ordered k a at_k after inside p (middle p q) m at_r
                  (omega arith) inner)
              ∙ binary_search_misses fuel (middle p q) q e (omega arith) hq (omega arith)
          | inr rest ↦
              round_stop fuel rip table p q none
                (chop_miss p (middle p q) m at_r (omega arith) (omega arith))
        ]

    -- In a table in order of several methods whose length is known, an address behind the start of the
    -- last method and before its end is not found: the method's record stands at the upper end of the
    -- search, at which the search does not look.
    pub search_table_misses_last :
        k + 1 ≡ length table
        → 1 < length table
        → search_table rip table (length table) ≡ done (none, length table)
    unfolding search_table
    search_table_misses_last last several =
        let missed =
          binary_search_misses (length table) 0 (length table - 1) (omega arith) (omega arith)
            (omega arith) (omega arith) in
        ground (arith, missed)
