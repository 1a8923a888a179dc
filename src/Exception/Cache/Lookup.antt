-- ===== src/Exception/Cache/Lookup.antt =====
-- findUnwindInfo keeps the cache valid and answers by a record that holds the address.
use llc.Common.{ℕ, ◌≡◌, ◌≢◌, refl, ap, sym, subst, ◌∙◌}
use llc.Common.{true, Option, none, some, done, >>=-eq-done, ==_refl, ==_ne}
use llc.Exception.Tables.{UnwindRecord, holds_closed}
use llc.Exception.Registry.{search_registry}
use llc.Exception.Registry.Sound.{search_registry-holds}
use llc.Exception.Cache.{
  Cache, State, Found, hash, follow_hit, find_cached_unwind_info, remember, BacktraceRecord, answer,
  commit, find_in_tables, find_unwind_info,
}
use llc.Exception.Cache.Valid.{
  IsValid, hash-lt, Cached-cases, chained, hashed, missed, find_cached-IsValid, follow_hit-IsValid,
  follow_hit-keeps, remember-IsValid,
}

-- The two ways through findUnwindInfo: the answer of an entry that holds the address already, or
-- a search of the tables.
pub data Looked (rip : ℕ) (b : Option BacktraceRecord) (s : State) : Type 0 where
  from_entry :
      (i : ℕ) (c : Cache)
      → find_cached_unwind_info rip s.cache ≡ (i, c)
      → (s.cache.entries i).rip ≡ rip
      → (c.entries i).rip ≡ rip
      → (c.entries i).p ≡ (s.cache.entries i).p
      → find_unwind_info rip b s ≡ done (answer rip (c.entries i).p b (record s { cache = c }))
      → Looked rip b s
  from_tables :
      (s.cache.entries (hash rip)).rip ≢ rip
      → find_unwind_info rip b s ≡ find_in_tables (hash rip) rip b s
      → Looked rip b s

entry_answers :
    (rip : ℕ) (b : Option BacktraceRecord) (s : State) (i : ℕ) (c : Cache)
    → find_cached_unwind_info rip s.cache ≡ (i, c)
    → (c.entries i).rip ≡ rip
    → find_unwind_info rip b s ≡ done (answer rip (c.entries i).p b (record s { cache = c }))
unfolding find_unwind_info
entry_answers rip b s i c e here = rw e (rw (here, ==_refl rip))

pub Looked-cases : (rip : ℕ) (b : Option BacktraceRecord) (s : State) → Looked rip b s
unfolding find_unwind_info
Looked-cases rip b s = elim (Cached-cases rip s.cache) [
  | chained i next here e ↦
      let c' = record (s.cache) { next_unwind_hit = (s.cache.entries i).next } in
      let (same_rip, same_p) = follow_hit-keeps i c' i in
      from_entry i (follow_hit i c') e here (same_rip ∙ here) same_p
        (entry_answers rip b s i (follow_hit i c') e (same_rip ∙ here))
  | hashed here e ↦
      let (same_rip, same_p) = follow_hit-keeps (hash rip) s.cache (hash rip) in
      from_entry (hash rip) (follow_hit (hash rip) s.cache) e here (same_rip ∙ here) same_p
        (entry_answers rip b s (hash rip) (follow_hit (hash rip) s.cache) e (same_rip ∙ here))
  | missed elsewhere e ↦ from_tables elsewhere (rw e (rw (==_ne _ rip elsewhere)))
]

pub answer_parts :
    (rip : ℕ) (p : Option UnwindRecord) (b : Option BacktraceRecord) (s : State)
    → ((answer rip p b s).0 ≡ p) × ((answer rip p b s).2 ≡ s)
answer_parts rip none b s = (refl, refl)
answer_parts rip (some p) b s = (refl, refl)

pub done-injective {ℓ} : {A : Type ℓ} {a b : A} → done a ≡ done b → a ≡ b
done-injective e = cc

-- A valid cache, and a record that holds the address.
abbrev pub IsAnswer : ℕ → Found → Type 0
IsAnswer rip result =
    IsValid result.2.cache × ((m : UnwindRecord) → result.0 ≡ some m → holds_closed rip m ≡ true)

commit-IsAnswer :
    (rip : ℕ) (found : Option UnwindRecord) (b : Option BacktraceRecord) (s : State)
    → IsValid s.cache
    → ((m : UnwindRecord) → found ≡ some m → holds_closed rip m ≡ true)
    → IsAnswer rip (commit (hash rip) rip found b s)
unfolding commit
commit-IsAnswer rip none b s v sound =
    (remember-IsValid (hash rip) rip none s.cache refl sound v, sound)
commit-IsAnswer rip (some p) b s v sound = (
  follow_hit-IsValid (hash rip) (remember (hash rip) rip (some p) s.cache) (hash-lt rip)
      (remember-IsValid (hash rip) rip (some p) s.cache refl sound v),
  sound,
)

find_in_tables-IsAnswer :
    (rip : ℕ) (b : Option BacktraceRecord) (s : State) (result : Found)
    → IsValid s.cache
    → find_in_tables (hash rip) rip b s ≡ done result
    → IsAnswer rip result
unfolding find_in_tables
find_in_tables-IsAnswer rip b s result v e =
    let ((found, registry), run, e') = >>=-eq-done (search_registry rip s.registry) _ e in
    let sound : (m : UnwindRecord) → found ≡ some m → holds_closed rip m ≡ true = λ m is_m.
      search_registry-holds rip s.registry registry m
        (run ∙ ap (λ (o : Option UnwindRecord). done (o, registry)) is_m) in
    subst (IsAnswer rip) (done-injective e')
      (commit-IsAnswer rip found b (record s { registry = registry }) v sound)

-- From a valid cache a lookup that ends leaves a valid cache, and the record that it answers with,
-- if any, has the address in its range, the end of the range included.
pub find_unwind_info-IsAnswer :
    (rip : ℕ) (b : Option BacktraceRecord) (s : State) (result : Found)
    → IsValid s.cache
    → find_unwind_info rip b s ≡ done result
    → IsAnswer rip result
find_unwind_info-IsAnswer rip b s result v e = elim (Looked-cases rip b s) [
  | from_entry i c cached here kept same e' ↦
      let s' = record s { cache = c } in
      let sound : (m : UnwindRecord) → (c.entries i).p ≡ some m → holds_closed rip m ≡ true =
        λ m is_m. rw here at ((v.placed i).1 m (sym same ∙ is_m)) in
      let (same_record, same_state) = answer_parts rip (c.entries i).p b s' in
      let valid : IsValid c = rw cached at (find_cached-IsValid rip s.cache v).0 in
      subst (IsAnswer rip) (done-injective (sym e' ∙ e))
        (rw same_state valid, λ m is_m. sound m (sym same_record ∙ is_m))
  | from_tables elsewhere e' ↦ find_in_tables-IsAnswer rip b s result v (sym e' ∙ e)
]
