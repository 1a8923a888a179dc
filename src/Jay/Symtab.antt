-- ===== src/Jay/Symtab.antt =====
-- jay/symtab.c: the symbol table, a hash table whose buckets are also linked in the order in which
-- they were made. The buckets are a list in that order, and a pointer to one is its index.
pub mod Again
use llc.Common.{ℕ, ◌+◌, ◌*◌, ◌%◌}
use llc.Common.{
  Bool, true, false, ◌&&◌, Option, none, some, List, [], ◌∷◌, ◌++◌, length, get_elem?, ◌==◌,
  if◌then◌else◌,
}
use llc.Jay.Mkpar.{Assoc, token}

-- The characters of a name, none of them negative or null; the code asserts that there is one.
abbrev pub Name : Type 0
Name = List ℕ

-- UNKNOWN, TERM and NONTERM.
pub data Class : Type 0 where
  unknown term nonterm : Class

-- The value UNDEFINED and a null tag are `none`.
pub record Bucket : Type 0 where
  pub name : Name
  pub tag : Option Name
  pub value : Option ℕ
  pub index : ℕ
  pub prec : ℕ
  pub class : Class
  pub assoc : Assoc

-- TABLE_SIZE.
abbrev pub table_size : ℕ
table_size = 1024

unfoldable pub hash_loop : ℕ → Name → ℕ
hash_loop k [] = k
hash_loop k (c ∷ s) = hash_loop ((31 * k + c) % table_size) s

unfoldable pub hash : Name → ℕ
hash [] = 0
hash (c ∷ s) = hash_loop c s

unfoldable pub make_bucket : Name → Bucket
make_bucket name = record {
  name = name;
  tag = none;
  value = none;
  index = 0;
  prec = 0;
  class = unknown;
  assoc = token;
}

-- `symbol_table[h]` and the `link` fields behind it are the chain at `h`.
pub record SymbolTable : Type 0 where
  pub buckets : List Bucket
  pub chains : ℕ → List ℕ

-- `strcmp(name, other) == 0`.
unfoldable pub same_name : Name → Name → Bool
same_name [] [] = true
same_name [] (d ∷ t) = false
same_name (c ∷ s) [] = false
same_name (c ∷ s) (d ∷ t) = c == d && same_name s t

abbrev pub has_name : Name → Option Bucket → Bool
has_name name none = false
has_name name (some b) = same_name name b.name

-- The loop of lookup along a chain.
unfoldable pub find : Name → List Bucket → List ℕ → Option ℕ
find name buckets [] = none
find name buckets (bp ∷ chain) =
    let rest = find name buckets chain in
    if has_name name (get_elem? buckets bp) then some bp else rest

-- The end of the chain at `h` is linked to the new bucket.
abbrev pub link : ℕ → ℕ → (ℕ → List ℕ) → ℕ → List ℕ
link h bp chains i = if i == h then chains i ++ bp ∷ [] else chains i

abbrev pub insert : Name → SymbolTable → SymbolTable
insert name t = record {
  buckets = t.buckets ++ make_bucket name ∷ [];
  chains = link (hash name) (length t.buckets) t.chains;
}

unfoldable pub lookup : Name → SymbolTable → ℕ × SymbolTable
lookup name t = elim (find name t.buckets (t.chains (hash name))) [
  | some bp ↦ (bp, t)
  | none ↦ (length t.buckets, insert name t)
]

-- create_symbol_table: the name is "error".
unfoldable pub create_symbol_table : SymbolTable
create_symbol_table =
    let name : Name = 101 ∷ 114 ∷ 114 ∷ 111 ∷ 114 ∷ [] in
    record {
      buckets = record (make_bucket name) { index = 1; class = term } ∷ [];
      chains = λ h. if h == hash name then 0 ∷ [] else [];
    }
