-- ===== src/Exception/Cache/Repeat.antt =====
-- A lookup that is made again is answered from the cache.
use llc.Common.{ℕ, ◌≡◌, ◌≢◌, refl, sym, subst, ◌∙◌, arith}
use llc.Common.{Option, none, some, done, >>=-eq-done, ==_refl}
use llc.Exception.Tables.{UnwindRecord}
use llc.Exception.Registry.{Registry, search_registry}
use llc.Exception.Cache.{
  Cache, State, Found, hash, remember, BacktraceRecord, commit, find_in_tables, find_unwind_info,
}
use llc.Exception.Cache.Valid.{IsValid, follow_hit-keeps}
use llc.Exception.Cache.Lookup.{
  Looked-cases, from_entry, from_tables, find_unwind_info-IsAnswer, answer_parts, done-injective,
}

-- The entry at the hash of the address holds the address and this outcome.
abbrev Stored : ℕ → Option UnwindRecord → Cache → Type 0
Stored rip found c = ((c.entries (hash rip)).rip ≡ rip) × ((c.entries (hash rip)).p ≡ found)

remember-Stored :
    (rip : ℕ) (found : Option UnwindRecord) (c : Cache)
    → Stored rip found (remember (hash rip) rip found c)
remember-Stored rip found c = ground (arith, ==_refl (hash rip))

commit-Stored :
    (rip : ℕ) (found : Option UnwindRecord) (b : Option BacktraceRecord) (s : State)
    → ((commit (hash rip) rip found b s).0 ≡ found)
      × Stored rip found (commit (hash rip) rip found b s).2.cache
unfolding commit
commit-Stored rip none b s = (refl, remember-Stored rip none s.cache)
commit-Stored rip (some p) b s =
    let c = remember (hash rip) rip (some p) s.cache in
    let (same_rip, same_p) = follow_hit-keeps (hash rip) c (hash rip) in
    let (at_rip, at_p) = remember-Stored rip (some p) s.cache in
    (refl, (same_rip ∙ at_rip, same_p ∙ at_p))

-- An entry other than at the hash holds only the address 0.
at_hash : (rip i : ℕ) (c : Cache) → rip ≢ 0 → IsValid c → (c.entries i).rip ≡ rip → hash rip ≡ i
at_hash rip i c h v here =
    let used : (c.entries i).rip ≢ 0 = λ e. h (sym here ∙ e) in rw here at ((v.placed i).0 used)

found-Stored :
    (rip : ℕ) (b : Option BacktraceRecord) (s : State) (result : Found)
    → rip ≢ 0
    → IsValid s.cache
    → find_unwind_info rip b s ≡ done result
    → Stored rip result.0 result.2.cache
unfolding find_in_tables
found-Stored rip b s result h v e = elim (Looked-cases rip b s) [
  | from_entry i c cached here kept same e' ↦
      let i_is_hash = at_hash rip i s.cache h v here in
      let s' = record s { cache = c } in
      let (same_record, same_state) = answer_parts rip (c.entries i).p b s' in
      subst (λ r. Stored rip r.0 r.2.cache) (done-injective (sym e' ∙ e))
        (rw (same_record, same_state) (rw i_is_hash (kept, refl)))
  | from_tables elsewhere e' ↦
      let ((found, registry), run, e'') =
        >>=-eq-done (search_registry rip s.registry) _ (sym e' ∙ e) in
      let (same_record, stored) = commit-Stored rip found b (record s { registry = registry }) in
      subst (λ r. Stored rip r.0 r.2.cache) (done-injective e'') (rw same_record stored)
]

Stored-answer :
    (rip : ℕ) (found : Option UnwindRecord) (b : Option BacktraceRecord) (s : State)
    → rip ≢ 0
    → IsValid s.cache
    → Stored rip found s.cache
    → (again : Found) × (find_unwind_info rip b s ≡ done again) × (again.0 ≡ found)
Stored-answer rip found b s h v (at_rip, at_p) = elim (Looked-cases rip b s) [
  | from_entry i c cached here kept same e' ↦
      let i_is_hash = at_hash rip i s.cache h v here in
      let held : (s.cache.entries i).p ≡ found = rw i_is_hash at at_p in
      (_, e', (answer_parts rip (c.entries i).p b (record s { cache = c })).0 ∙ same ∙ held)
  | from_tables elsewhere e' ↦ absurd (elsewhere at_rip)
]

-- After a lookup of an address other than 0 has ended, from a valid cache, the same lookup ends
-- with the same record, or again without one, whatever tables have been registered in between.
pub find_unwind_info_repeats :
    (rip : ℕ) (b b' : Option BacktraceRecord) (s : State) (result : Found) (registry : Registry)
    → rip ≢ 0
    → IsValid s.cache
    → find_unwind_info rip b s ≡ done result
    → (again : Found) × (find_unwind_info rip b' (record (result.2) { registry = registry })
        ≡ done again)
      × (again.0 ≡ result.0)
find_unwind_info_repeats rip b b' s result registry h v e =
    Stored-answer rip result.0 b' (record (result.2) { registry = registry }) h
      (find_unwind_info-IsAnswer rip b s result v e).0 (found-Stored rip b s result h v e)
