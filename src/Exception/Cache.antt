-- ===== src/Exception/Cache.antt =====
-- findCachedUnwindInfo and findUnwindInfo of lrt-exception.c. A pointer into __unwind_cache is an
-- index, and the array is a function of the index.
pub mod Valid
pub mod Lookup
pub mod Repeat
use Prim.Native.Nat.{bit_xor}
use llc.Common.{ℕ, ◌+◌, ◌/◌, ◌%◌, ◌^◌}
use llc.Common.{
  Bool, true, false, Option, none, some, List, [], ◌∷◌, Run, done, ◌>>=◌, ◌==◌, if◌then◌else◌,
}
use llc.Exception.Tables.{UnwindRecord, LineRecord}
use llc.Exception.Registry.{Registry, search_registry}

-- RecentUnwindInfo.
pub record Entry : Type 0 where
  pub rip : ℕ
  pub p : Option UnwindRecord
  pub next : Option ℕ

-- __unwind_cache, __next_unwind_hit and __last_unwind_hit.
pub record Cache : Type 0 where
  pub entries : ℕ → Entry
  pub next_unwind_hit : Option ℕ
  pub last_unwind_hit : Option ℕ

-- The cache that a program starts with.
abbrev pub empty_cache : Cache
empty_cache = record {
  entries = λ _. record { rip = 0; p = none; next = none };
  next_unwind_hit = some 0;
  last_unwind_hit = some 0;
}

abbrev pub write : ℕ → Entry → (ℕ → Entry) → ℕ → Entry
write i e entries j = if j == i then e else entries j

-- The exclusive or of the four low bytes, in an unsigned char.
unfoldable pub hash : ℕ → ℕ
hash rip =
    bit_xor (bit_xor (bit_xor (rip % 256) (rip / 256 % 256)) (rip / 65536 % 256))
      (rip / 16777216 % 256)
    % 256

-- `__last_unwind_hit->next = p`, unless that is null, and `__last_unwind_hit = p`.
unfoldable pub follow_hit : ℕ → Cache → Cache
follow_hit i c = elim c.last_unwind_hit [
  | none ↦ record c { last_unwind_hit = some i }
  | some l ↦ record c {
    entries = write l (record (c.entries l) { next = some i }) c.entries;
    last_unwind_hit = some i;
  }
]

-- `__next_unwind_hit != 0 && __next_unwind_hit->rip == rip`, with the index.
unfoldable pub chain_hit : ℕ → Cache → Option ℕ
chain_hit rip c = elim c.next_unwind_hit [
  | none ↦ none
  | some i ↦ if (c.entries i).rip == rip then some i else none
]

unfoldable pub find_cached_unwind_info : ℕ → Cache → ℕ × Cache
find_cached_unwind_info rip c = elim (chain_hit rip c) [
  | some i ↦ (i, follow_hit i (record c { next_unwind_hit = (c.entries i).next }))
  | none ↦
      if (c.entries (hash rip)).rip == rip
      then (hash rip, follow_hit (hash rip) c)
      else (hash rip, c)
]

pub record BacktraceRecord : Type 0 where
  pub rip : ℕ
  pub method_name : Option ℕ
  pub line_number_info : Option (List LineRecord)

-- What is stored through `backtrace`, unless that is null.
abbrev pub fill : ℕ → UnwindRecord → Option BacktraceRecord → Option BacktraceRecord
fill rip p none = none
fill rip p (some _) =
    some (record { rip = rip; method_name = p.method_name; line_number_info = p.line_numbers })

pub record State : Type 0 where
  pub registry : Registry
  pub cache : Cache

-- `rp->rip = rip; rp->p = p; rp->next = 0`.
abbrev pub remember : ℕ → ℕ → Option UnwindRecord → Cache → Cache
remember i rip p c = record c {
  entries = write i (record { rip = rip; p = p; next = none }) c.entries;
}

-- The record, what `backtrace` points to, and the state.
abbrev pub Found : Type 0
Found = Option UnwindRecord × Option BacktraceRecord × State

abbrev pub answer : ℕ → Option UnwindRecord → Option BacktraceRecord → State → Found
answer rip none backtrace s = (none, backtrace, s)
answer rip (some p) backtrace s = (some p, fill rip p backtrace, s)

-- What comes of a search is remembered at `i`; where it is a record, as a hit.
unfoldable pub commit : ℕ → ℕ → Option UnwindRecord → Option BacktraceRecord → State → Found
commit i rip none backtrace s =
    answer rip none backtrace (record s { cache = remember i rip none s.cache })
commit i rip (some p) backtrace s =
    answer rip (some p) backtrace
      (record s { cache = follow_hit i (remember i rip (some p) s.cache) })

-- The path on which the entry at `i` does not hold the address.
unfoldable pub find_in_tables : ℕ → ℕ → Option BacktraceRecord → State → Run Found
find_in_tables i rip backtrace s = do
  (found, registry) ← search_registry rip s.registry
  done (commit i rip found backtrace (record s { registry = registry }))

unfoldable pub find_unwind_info : ℕ → Option BacktraceRecord → State → Run Found
find_unwind_info rip backtrace s =
    let (i, cache) = find_cached_unwind_info rip s.cache in
    let s' = record s { cache = cache } in
    if (cache.entries i).rip == rip
    then done (answer rip (cache.entries i).p backtrace s')
    else find_in_tables i rip backtrace s'
