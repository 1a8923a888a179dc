-- ===== src/Exception/Cache/Valid.antt =====
-- The invariant of the cache.
use llc.Common.{ℕ, ◌<◌, ◌≡◌, ◌≢◌, refl, ap, ◌∙◌, arith}
use llc.Common.{true, Option, none, some, Option-cases, inl, inr, ==_refl, ==_ne}
use native.Mathlib.Decide.{ℕ_discrete}
use llc.Exception.Tables.{UnwindRecord, holds_closed}
use llc.Exception.Cache.{
  Entry, Cache, empty_cache, write, hash, follow_hit, chain_hit, find_cached_unwind_info, remember,
}

pub hash-lt : (rip : ℕ) → hash rip < 256
unfolding hash
hash-lt rip = omega arith

abbrev pub IsIndex : Option ℕ → Type 0
IsIndex none = Unit
IsIndex (some i) = i < 256

-- An entry is free, or stands at the hash of its address; its record, if any, holds the address.
abbrev pub IsPlaced : ℕ → Entry → Type 0
IsPlaced i e =
    (e.rip ≢ 0 → hash e.rip ≡ i)
    × ((m : UnwindRecord) → e.p ≡ some m → holds_closed e.rip m ≡ true)
    × IsIndex e.next

pub record IsValid (c : Cache) : Type 0 where
  pub placed : (i : ℕ) → IsPlaced i (c.entries i)
  pub next : IsIndex c.next_unwind_hit
  pub last : IsIndex c.last_unwind_hit

-- The cache that a program starts with is valid.
pub empty_cache-IsValid : IsValid empty_cache
empty_cache-IsValid = record {
  placed = λ i. (λ used. absurd (used refl), λ m e. cc, tt);
  next = omega arith;
  last = omega arith;
}

write-IsPlaced :
    (i : ℕ) (e : Entry) (entries : ℕ → Entry)
    → ((j : ℕ) → IsPlaced j (entries j))
    → IsPlaced i e
    → (j : ℕ) → IsPlaced j (write i e entries j)
write-IsPlaced i e entries old new j = elim (ℕ_discrete j i) [
  | yes same ↦ rw (same, ==_refl i) new
  | no differ ↦ rw (==_ne j i differ) (old j)
]

follow_hit-none :
    (i : ℕ) (c : Cache)
    → c.last_unwind_hit ≡ none
    → follow_hit i c ≡ record c { last_unwind_hit = some i }
unfolding follow_hit
follow_hit-none i c e = ground (arith, e)

follow_hit-some :
    (i : ℕ) (c : Cache) (l : ℕ)
    → c.last_unwind_hit ≡ some l
    → follow_hit i c ≡ record c {
      entries = write l (record (c.entries l) { next = some i }) c.entries;
      last_unwind_hit = some i;
    }
unfolding follow_hit
follow_hit-some i c l e = ground (arith, e)

pub follow_hit-IsValid : (i : ℕ) (c : Cache) → i < 256 → IsValid c → IsValid (follow_hit i c)
follow_hit-IsValid i c h v = elim (Option-cases c.last_unwind_hit) [
  | inl e ↦ rw (follow_hit-none i c e) (record { placed = v.placed; next = v.next; last = h })
  | inr (l, e) ↦ rw (follow_hit-some i c l e) (record {
    placed =
        write-IsPlaced l (record (c.entries l) { next = some i }) c.entries v.placed
          ((v.placed l).0, (v.placed l).1, h);
    next = v.next;
    last = h;
  })
]

-- Only `next` fields change.
pub follow_hit-keeps :
    (i : ℕ) (c : Cache) (j : ℕ)
    → (((follow_hit i c).entries j).rip ≡ (c.entries j).rip)
      × (((follow_hit i c).entries j).p ≡ (c.entries j).p)
follow_hit-keeps i c j = elim (Option-cases c.last_unwind_hit) [
  | inl e ↦ rw (follow_hit-none i c e) (refl, refl)
  | inr (l, e) ↦ rw (follow_hit-some i c l e) (written l)
]
  where
    written :
        (l : ℕ)
        → ((write l (record (c.entries l) { next = some i }) c.entries j).rip ≡ (c.entries j).rip)
          × ((write l (record (c.entries l) { next = some i }) c.entries j).p ≡ (c.entries j).p)
    written l = ground (arith, ==_refl l)

chain_hit-some :
    (rip : ℕ) (c : Cache) (i : ℕ)
    → chain_hit rip c ≡ some i
    → (c.next_unwind_hit ≡ some i) × ((c.entries i).rip ≡ rip)
unfolding chain_hit
chain_hit-some rip c i e = elim (Option-cases c.next_unwind_hit) [
  | inl empty ↦ ground (arith, e, empty)
  | inr (j, next) ↦
      let here : (j ≡ i) × ((c.entries j).rip ≡ rip) = ground (arith, e, next) in
      (next ∙ ap some here.0, rw here.0 at here.1)
]

-- The three ways through findCachedUnwindInfo.
pub data Cached (rip : ℕ) (c : Cache) : Type 0 where
  chained :
      (i : ℕ)
      → c.next_unwind_hit ≡ some i
      → (c.entries i).rip ≡ rip
      → find_cached_unwind_info rip c
        ≡ (i, follow_hit i (record c { next_unwind_hit = (c.entries i).next }))
      → Cached rip c
  hashed :
      (c.entries (hash rip)).rip ≡ rip
      → find_cached_unwind_info rip c ≡ (hash rip, follow_hit (hash rip) c)
      → Cached rip c
  missed :
      (c.entries (hash rip)).rip ≢ rip
      → find_cached_unwind_info rip c ≡ (hash rip, c)
      → Cached rip c

pub Cached-cases : (rip : ℕ) (c : Cache) → Cached rip c
unfolding find_cached_unwind_info
Cached-cases rip c = elim (Option-cases (chain_hit rip c)) [
  | inr (i, e) ↦
      let (next, here) = chain_hit-some rip c i e in chained i next here (ground (arith, e))
  | inl e ↦ elim (ℕ_discrete (c.entries (hash rip)).rip rip) [
    | yes here ↦ hashed here (ground (arith, e, here))
    | no elsewhere ↦ missed elsewhere (ground (arith, e, elsewhere))
  ]
]

pub find_cached-IsValid :
    (rip : ℕ) (c : Cache)
    → IsValid c
    → IsValid (find_cached_unwind_info rip c).1 × ((find_cached_unwind_info rip c).0 < 256)
find_cached-IsValid rip c v = elim (Cached-cases rip c) [
  | chained i next here e ↦
      let small : i < 256 = rw next at v.next in
      rw e (
        follow_hit-IsValid i (record c { next_unwind_hit = (c.entries i).next }) small
            (record { placed = v.placed; next = (v.placed i).2; last = v.last }),
        small,
      )
  | hashed here e ↦ rw e (follow_hit-IsValid (hash rip) c (hash-lt rip) v, hash-lt rip)
  | missed elsewhere e ↦ rw e (v, hash-lt rip)
]

pub remember-IsValid :
    (i rip : ℕ) (p : Option UnwindRecord) (c : Cache)
    → hash rip ≡ i
    → ((m : UnwindRecord) → p ≡ some m → holds_closed rip m ≡ true)
    → IsValid c
    → IsValid (remember i rip p c)
remember-IsValid i rip p c h sound v = record {
  placed =
      write-IsPlaced i (record { rip = rip; p = p; next = none }) c.entries v.placed
        (λ used. h, sound, tt);
  next = v.next;
  last = v.last;
}
