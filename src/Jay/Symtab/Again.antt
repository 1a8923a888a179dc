-- ===== src/Jay/Symtab/Again.antt =====
-- A name that is looked up again.
use llc.Common.{ℕ, zero, suc, ◌<◌, ◌≡◌, refl, arith}
use llc.Common.{
  true, none, some, Option-cases, inl, inr, List, [], ◌∷◌, ◌++◌, length, get_elem?, ==_refl,
}
use llc.Jay.Symtab.{
  Name, Bucket, SymbolTable, hash, make_bucket, same_name, has_name, find, insert, lookup,
}

-- The pointers of a chain point to buckets.
abbrev pub IsChain : List Bucket → List ℕ → Type 0
IsChain buckets [] = Unit
IsChain buckets (bp ∷ chain) = (bp < length buckets) × IsChain buckets chain

same_name_refl : (name : Name) → same_name name name ≡ true
unfolding same_name
same_name_refl [] = refl
same_name_refl (c ∷ s) = ground (arith, same_name_refl s)

get_elem?-front :
    (xs ys : List Bucket) (i : ℕ) → i < length xs → get_elem? (xs ++ ys) i ≡ get_elem? xs i
get_elem?-front [] ys i h = absurd (omega arith)
get_elem?-front (x ∷ xs) ys zero h = refl
get_elem?-front (x ∷ xs) ys (suc i) h = get_elem?-front xs ys i (omega arith)

get_elem?-end : (xs : List Bucket) (b : Bucket) → get_elem? (xs ++ b ∷ []) (length xs) ≡ some b
get_elem?-end [] b = refl
get_elem?-end (x ∷ xs) b = get_elem?-end xs b

has_own_name : (name : Name) → has_name name (some (make_bucket name)) ≡ true
unfolding make_bucket
has_own_name name = same_name_refl name

-- A name that is not on a chain is found behind it, once its bucket is linked there.
find-made :
    (name : Name) (buckets : List Bucket) (chain : List ℕ)
    → IsChain buckets chain
    → find name buckets chain ≡ none
    → find name (buckets ++ make_bucket name ∷ []) (chain ++ length buckets ∷ [])
      ≡ some (length buckets)
unfolding find
find-made name buckets [] h e =
    rw (get_elem?-end buckets (make_bucket name)) (rw (has_own_name name) refl)
find-made name buckets (bp ∷ chain) (inside, h) e = ground (
  arith,
  e,
  get_elem?-front buckets (make_bucket name ∷ []) bp inside,
  find-made name buckets chain h,
)

lookup-some :
    (name : Name) (t : SymbolTable) (bp : ℕ)
    → find name t.buckets (t.chains (hash name)) ≡ some bp
    → lookup name t ≡ (bp, t)
unfolding lookup
lookup-some name t bp e = ground (arith, e)

lookup-none :
    (name : Name) (t : SymbolTable)
    → find name t.buckets (t.chains (hash name)) ≡ none
    → lookup name t ≡ (length t.buckets, insert name t)
unfolding lookup
lookup-none name t e = ground (arith, e)

-- Where the chain of a name's hash points to buckets, looking the name up again answers the bucket
-- that the first lookup found or made, and changes nothing.
pub lookup_again :
    (name : Name) (t : SymbolTable)
    → IsChain t.buckets (t.chains (hash name))
    → lookup name (lookup name t).1 ≡ lookup name t
lookup_again name t h = elim (Option-cases (find name t.buckets (t.chains (hash name)))) [
  | inr (bp, e) ↦ rw (lookup-some name t bp e) (lookup-some name t bp e)
  | inl e ↦ rw (lookup-none name t e) (
      lookup-some name (insert name t) (length t.buckets)
        (rw (==_refl (hash name)) (find-made name t.buckets (t.chains (hash name)) h e)))
]
