-- ===== src/Exception/Tables/Linear.antt =====
-- The linear search.
use llc.Common.{ℕ, zero, suc, ◌+◌, ◌<◌, ◌≡◌, refl, ◌∙◌, arith}
use llc.Common.{true, false, Option, some, List, [], ◌∷◌, length, get_elem?}
use llc.Exception.Tables.{UnwindRecord, take_match, holds_half_open, linear_search}

pub linear_search-count :
    (rip : ℕ) (table : List UnwindRecord) (p : Option UnwindRecord) (count : ℕ)
    → (linear_search rip table p count).1 ≡ count + length table
unfolding linear_search
linear_search-count rip [] p count = omega arith
linear_search-count rip (q ∷ table) p count =
    omega (arith, linear_search-count rip table (take_match rip q p) (count + 1))

take_match-none :
    (rip : ℕ) (q : UnwindRecord) (p : Option UnwindRecord)
    → holds_half_open rip q ≡ false
    → take_match rip q p ≡ p
unfolding take_match
take_match-none rip q p h = ground (arith, h)

take_match-some :
    (rip : ℕ) (q : UnwindRecord) (p : Option UnwindRecord)
    → holds_half_open rip q ≡ true
    → take_match rip q p ≡ some q
unfolding take_match
take_match-some rip q p h = ground (arith, h)

-- No record of the table holds the address.
linear_search-skips :
    (rip : ℕ) (table : List UnwindRecord) (p : Option UnwindRecord) (count : ℕ)
    → ((j : ℕ) (b : UnwindRecord) → get_elem? table j ≡ some b → holds_half_open rip b ≡ false)
    → (linear_search rip table p count).0 ≡ p
unfolding linear_search
linear_search-skips rip [] p count h = refl
linear_search-skips rip (q ∷ table) p count h =
    linear_search-skips rip table (take_match rip q p) (count + 1) (λ j b e. h (suc j) b e)
    ∙ take_match-none rip q p (h 0 q refl)

-- The record at `k` does, and none behind it.
pub linear_search-finds :
    (rip : ℕ) (table : List UnwindRecord) (p : Option UnwindRecord) (count k : ℕ) (a : UnwindRecord)
    → get_elem? table k ≡ some a
    → holds_half_open rip a ≡ true
    → ((j : ℕ) (b : UnwindRecord)
        → k < j
        → get_elem? table j ≡ some b
        → holds_half_open rip b ≡ false)
    → (linear_search rip table p count).0 ≡ some a
unfolding linear_search
linear_search-finds rip [] p count k a at_k holds rest = cc
linear_search-finds rip (q ∷ table) p count zero a at_k holds rest =
    let same : q ≡ a = cc in
    linear_search-skips rip table (take_match rip q p) (count + 1)
      (λ j b e. rest (suc j) b (omega arith) e)
    ∙ rw same (take_match-some rip a p holds)
linear_search-finds rip (q ∷ table) p count (suc k) a at_k holds rest =
    linear_search-finds rip table _ (count + 1) k a at_k holds
      (λ j b h e. rest (suc j) b (omega arith) e)
