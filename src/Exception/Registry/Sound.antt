-- ===== src/Exception/Registry/Sound.antt =====
-- What a lookup in the tables finds, and where it ends.
use llc.Common.{ℕ, zero, suc, ◌+◌, ◌-◌, ◌≡◌, ◌≢◌, ◌⊎◌, inl, inr, refl, sym, ◌∙◌, arith}
use llc.Common.{true, Bool-cases, Option, none, some, Option-cases, List, [], ◌∷◌, get_elem?}
use llc.Common.{Run, done, fault, ◌>>=◌, >>=-eq-done}
use llc.Exception.Tables.{
  UnwindRecord, holds_half_open, holds_closed, record_at, take_match, linear_search, binary_search,
  search_table,
}
use llc.Exception.Tables.Binary.{record_at-inside, binary_search-Sound, binary_search-ends}
use llc.Exception.Registry.{Node, Registry, put_length, search_tables, search_registry}

taken :
    (rip : ℕ) (q : UnwindRecord) (p : Option UnwindRecord) (m : UnwindRecord)
    → take_match rip q p ≡ some m
    → ((some q ≡ some m) × (holds_half_open rip m ≡ true)) ⊎ (p ≡ some m)
unfolding take_match
taken rip q p m e = elim (Bool-cases (holds_half_open rip q)) [
  | inl holds ↦
      let same : some q ≡ some m = ground (arith, e, holds) in
      let q_is_m : q ≡ m = cc same in inl (same, rw q_is_m at holds)
  | inr misses ↦ inr (ground (arith, e, misses))
]

linear_search-Sound :
    (rip : ℕ) (table : List UnwindRecord) (p : Option UnwindRecord) (count : ℕ) (m : UnwindRecord)
    → (linear_search rip table p count).0 ≡ some m
    → ((i : ℕ) × (get_elem? table i ≡ some m) × (holds_half_open rip m ≡ true)) ⊎ (p ≡ some m)
unfolding linear_search
linear_search-Sound rip [] p count m e = inr e
linear_search-Sound rip (q ∷ table) p count m e =
    elim (linear_search-Sound rip table (take_match rip q p) (count + 1) m e) [
      | inl (i, at_i, holds) ↦ inl (suc i, at_i, holds)
      | inr e' ↦ elim (taken rip q p m e') [
        | inl (same, holds) ↦ inl (0, same, holds)
        | inr old ↦ inr old
      ]
    ]

-- The record stands in the table, its end included, and its closed range holds the address.
abbrev pub FoundIn : ℕ → List UnwindRecord → UnwindRecord → Type 0
FoundIn rip table m = (i : ℕ) × (record_at table i ≡ some m) × (holds_closed rip m ≡ true)

half_open_closed :
    (rip : ℕ) (m : UnwindRecord) → holds_half_open rip m ≡ true → holds_closed rip m ≡ true
half_open_closed rip m h = ground arith

chopped : ℕ → List UnwindRecord → ℕ → Run (Option UnwindRecord × ℕ)
chopped rip table count = do
  found ← binary_search count rip table 0 (count - 1)
  done (found, count)

search_table_known :
    (rip : ℕ) (table : List UnwindRecord) (count : ℕ)
    → search_table rip table (suc count) ≡ chopped rip table (suc count)
unfolding search_table chopped
search_table_known rip table count = ground arith

-- What a lookup in one table finds is a record of the table, or its end, whose range, its end included, holds
-- the address, whatever length is recorded for the table.
pub search_table-FoundIn :
    (rip : ℕ) (table : List UnwindRecord) (count n : ℕ) (m : UnwindRecord)
    → search_table rip table count ≡ done (some m, n)
    → FoundIn rip table m
unfolding search_table chopped
search_table-FoundIn rip table zero n m e =
    elim (linear_search-Sound rip table none 0 m (ground (arith, e))) [
      | inl (i, at_i, holds) ↦ (i, record_at-inside table i m at_i, half_open_closed rip m holds)
      | inr no_record ↦ cc
    ]
search_table-FoundIn rip table (suc count) n m e =
    let (found, run, e') =
      >>=-eq-done (binary_search (suc count) rip table 0 (suc count - 1)) _
        (sym (search_table_known rip table count) ∙ e) in
    let (i, at_i, lo, hi, holds) =
      binary_search-Sound (suc count) rip table 0 (suc count - 1) m (omega arith)
        (ground (arith, run, e')) in
    (i, at_i, holds)

-- One of the tables that a lookup can reach: the first, or that of a node with another behind it, up to
-- a null head.
abbrev pub FoundAmong : ℕ → List UnwindRecord → List Node → UnwindRecord → Type 0
FoundAmong rip start [] m = FoundIn rip start m
FoundAmong rip start (node ∷ []) m = FoundIn rip start m
FoundAmong rip start (node ∷ next ∷ nodes) m =
    FoundIn rip start m
    ⊎ elim node.head [ none ↦ ⊥ | some head ↦ FoundAmong rip head (next ∷ nodes) m ]

-- The lookup where the first table does not have the address.
search_tables-next :
    (rip : ℕ) (start : List UnwindRecord) (count n : ℕ) (node next : Node) (nodes : List Node)
    (head : List UnwindRecord)
    → search_table rip start count ≡ done (none, n)
    → node.head ≡ some head
    → search_tables rip start count (node ∷ next ∷ nodes) ≡ (
        search_tables rip head next.length (next ∷ nodes) >>= λ (found', k, nodes').
        done (found', n, node ∷ put_length k nodes'))
unfolding search_tables
search_tables-next rip start count n node next nodes head e at = ground (arith, e, at)

search_tables-end :
    (rip : ℕ) (start : List UnwindRecord) (count n : ℕ) (node next : Node) (nodes : List Node)
    → search_table rip start count ≡ done (none, n)
    → node.head ≡ none
    → search_tables rip start count (node ∷ next ∷ nodes) ≡ done (none, n, node ∷ next ∷ nodes)
unfolding search_tables
search_tables-end rip start count n node next nodes e at = ground (arith, e, at)

search_tables-last :
    (rip : ℕ) (start : List UnwindRecord) (count n : ℕ) (node : Node)
    → search_table rip start count ≡ done (none, n)
    → search_tables rip start count (node ∷ []) ≡ fault
unfolding search_tables
search_tables-last rip start count n node e = ground (arith, e)

search_tables_table_faults :
    (rip : ℕ) (start : List UnwindRecord) (count : ℕ) (node : Node) (nodes : List Node)
    → search_table rip start count ≡ fault
    → search_tables rip start count (node ∷ nodes) ≡ fault
unfolding search_tables
search_tables_table_faults rip start count node [] e = ground (arith, e)
search_tables_table_faults rip start count node (next ∷ nodes) e = ground (arith, e)

search_table-cases :
    (rip : ℕ) (table : List UnwindRecord) (count : ℕ)
    → (search_table rip table count ≡ fault)
      ⊎ ((found : Option UnwindRecord) × (n : ℕ) × (search_table rip table count ≡ done (found, n)))
unfolding search_table chopped
search_table-cases rip table zero = inr (_, _, refl)
search_table-cases rip table (suc n) =
    elim (binary_search-ends (suc n) rip table 0 (suc n - 1) (omega arith) (omega arith)) [
      | inl faults ↦ inl (ground (arith, faults))
      | inr (found, e) ↦ inr (found, suc n, ground (arith, e))
    ]

search_tables-hit :
    (rip : ℕ) (start : List UnwindRecord) (count n : ℕ) (node next : Node) (nodes : List Node)
    (p : UnwindRecord)
    → search_table rip start count ≡ done (some p, n)
    → search_tables rip start count (node ∷ next ∷ nodes) ≡ done (some p, n, node ∷ next ∷ nodes)
unfolding search_tables
search_tables-hit rip start count n node next nodes p e = ground (arith, e)

-- What a lookup over all the tables finds is a record of one of those that it can reach, or the end of
-- one, whose range, its end included, holds the address; the table of the last registered node it does
-- not reach.
pub search_tables-FoundAmong :
    (rip : ℕ) (start : List UnwindRecord) (count : ℕ) (nodes : List Node) (m : UnwindRecord) (n : ℕ)
    (nodes' : List Node)
    → search_tables rip start count nodes ≡ done (some m, n, nodes')
    → FoundAmong rip start nodes m
unfolding search_tables
search_tables-FoundAmong rip start count [] m n nodes' e =
    let ((found, n'), run, e') = >>=-eq-done (search_table rip start count) _ e in
    search_table-FoundIn rip start count n' m (ground (arith, run, e'))
search_tables-FoundAmong rip start count (node ∷ []) m n nodes' e =
    let ((found, n'), run, e') = >>=-eq-done (search_table rip start count) _ e in
    search_table-FoundIn rip start count n' m (ground (arith, run, e'))
search_tables-FoundAmong rip start count (node ∷ next ∷ nodes) m n nodes' e =
    elim (search_table-cases rip start count) [
      | inl faults ↦
          let over = search_tables_table_faults rip start count node (next ∷ nodes) faults in
          absurd (cc (over, e))
      | inr (found, k, run) ↦ elim (Option-cases found) [
        | inr (a, is_some) ↦
            let hit : search_table rip start count ≡ done (some a, k) = rw is_some at run in
            let over = search_tables-hit rip start count k node next nodes a hit in
            let same : a ≡ m = cc (over, e) in
            inl (search_table-FoundIn rip start count k m (rw same at hit))
        | inl is_none ↦
            let missed : search_table rip start count ≡ done (none, k) = rw is_none at run in
            elim (Option-cases node.head) [
              | inl null ↦
                  let over = search_tables-end rip start count k node next nodes missed null in
                  absurd (cc (over, e))
              | inr (head, at) ↦
                  let ((found', k', nodes₁), run', e'') =
                    >>=-eq-done (search_tables rip head next.length (next ∷ nodes)) _ (
                      sym (search_tables-next rip start count k node next nodes head missed at)
                      ∙ e) in
                  let deeper =
                    search_tables-FoundAmong rip head next.length (next ∷ nodes) m k' nodes₁
                      (ground (arith, run', e'')) in
                  inr (rw at deeper)
            ]
      ]
    ]

abbrev pub HasHeads : List Node → Type 0
HasHeads [] = Unit
HasHeads (node ∷ nodes) = (node.head ≢ none) × HasHeads nodes

-- With a registered table and no null heads, a lookup of an address that no reachable table has faults:
-- behind the last table that it searches the code takes a length from a node that is not there.
pub search_tables-eq-fault :
    (rip : ℕ) (start : List UnwindRecord) (count : ℕ) (node : Node) (nodes : List Node)
    → HasHeads (node ∷ nodes)
    → ((m : UnwindRecord) → FoundAmong rip start (node ∷ nodes) m → ⊥)
    → search_tables rip start count (node ∷ nodes) ≡ fault
search_tables-eq-fault rip start count node [] heads nowhere =
    elim (search_table-cases rip start count) [
      | inl faults ↦ search_tables_table_faults rip start count node [] faults
      | inr (found, n, run) ↦ elim (Option-cases found) [
        | inr (m, is_some) ↦
            absurd (nowhere m (search_table-FoundIn rip start count n m (rw is_some at run)))
        | inl is_none ↦ search_tables-last rip start count n node (rw is_none at run)
      ]
    ]
search_tables-eq-fault rip start count node (next ∷ nodes) heads nowhere =
    elim (search_table-cases rip start count) [
      | inl faults ↦ search_tables_table_faults rip start count node (next ∷ nodes) faults
      | inr (found, n, run) ↦ elim (Option-cases found) [
        | inr (m, is_some) ↦
            absurd (nowhere m (inl (search_table-FoundIn rip start count n m (rw is_some at run))))
        | inl is_none ↦ elim (Option-cases node.head) [
          | inl null ↦ absurd (heads.0 null)
          | inr (head, at) ↦
              let deeper =
                search_tables-eq-fault rip head next.length next nodes heads.1
                  (λ m found_there. nowhere m (inr (rw at found_there))) in
              search_tables-next rip start count n node next nodes head (rw is_none at run) at
              ∙ rw deeper refl
        ]
      ]
    ]

pub FoundAmong-holds :
    (rip : ℕ) (start : List UnwindRecord) (nodes : List Node) (m : UnwindRecord)
    → FoundAmong rip start nodes m
    → holds_closed rip m ≡ true
FoundAmong-holds rip start [] m h = h.2
FoundAmong-holds rip start (node ∷ []) m h = h.2
FoundAmong-holds rip start (node ∷ next ∷ nodes) m (inl h) = h.2
FoundAmong-holds rip start (node ∷ next ∷ nodes) m (inr h) = elim (Option-cases node.head) [
  | inl null ↦ absurd (rw null at h)
  | inr (head, at) ↦ FoundAmong-holds rip head (next ∷ nodes) m (rw at at h)
]

pub search_registry-holds :
    (rip : ℕ) (reg reg' : Registry) (m : UnwindRecord)
    → search_registry rip reg ≡ done (some m, reg')
    → holds_closed rip m ≡ true
unfolding search_registry
search_registry-holds rip reg reg' m e =
    let ((found, n, nodes), run, e') =
      >>=-eq-done (search_tables rip reg.start reg.start_length reg.unwind_head) _ e in
    FoundAmong-holds rip reg.start reg.unwind_head m (
      search_tables-FoundAmong rip reg.start reg.start_length reg.unwind_head m n nodes
        (ground (arith, run, e')))
