-- ===== src/Jay/Vectors/Loop.antt =====
-- pack_table keeps each vector: the table holds its entries at its base, and no others there.
use llc.Common.{ℕ, ◌+◌, ◌≤◌, ◌<◌, ◌≡◌, ◌≢◌, ◌↔◌, ◌⊎◌, inl, inr, refl, sym, ap, subst, ◌∙◌, arith}
use llc.Common.{
  Option, none, some, Option-cases, List, [], ◌∷◌, length, length-set, length-replicate,
  get_or-replicate, replicate, done, IfDone, IfDone->>=, IfDone-map, Ends, Ends-of, Among,
  le→not_ltb,
}
use llc.Jay.Grammar.{maxshort}
use llc.Jay.Vectors.{
  Vector, Packing, tally, bias, loc_of, pack_vector, matching_vector, place_matched, place_vector,
  pack_loop, pack_table, sort_actions, sorted,
}
use llc.Jay.Vectors.Write.{check_of, table_of, Distinct}
use llc.Jay.Vectors.Place.{pack_vector-Packed}
use llc.Jay.Vectors.Match.{matching_vector-Matches}
use llc.Jay.Vectors.Order.{Apart, sorted_lem}
use llc.Jay.Vectors.Total.{pack_table-ne-stuck}
use llc.Jay.Vectors.Entries.{base_of, IsPacked, advance, copied-IsPacked, Packed-IsPacked}

place_vector-none :
    (v : ℕ → Vector) (nstates i : ℕ) (before : List ℕ) (p : Packing)
    → matching_vector v nstates i before ≡ none
    → place_vector v nstates i before p ≡ pack_vector (v i).entries p
unfolding place_vector place_matched
place_vector-none v nstates i before p e = ap (λ o. place_matched o (v i).entries p) e

place_vector-some :
    (v : ℕ → Vector) (nstates i j : ℕ) (before : List ℕ) (p : Packing)
    → matching_vector v nstates i before ≡ some j
    → place_vector v nstates i before p ≡ done (base_of p j, p)
unfolding place_vector place_matched
place_vector-some v nstates i j before p e = ap (λ o. place_matched o (v i).entries p) e

module _ (v : ℕ → Vector) (nstates : ℕ) (distinct : (i : ℕ) → Distinct (v i).entries) where
  abbrev Advanced : List ℕ → ℕ → Packing → ℕ × Packing → Type 0
  Advanced before i p (place, q) =
      IsPacked v (i ∷ before) (advance i place q) × (length q.base ≡ length p.base)

  place_vector-Advanced :
      (before : List ℕ) (i : ℕ) (p : Packing)
      → IsPacked v before p
      → i < length p.base
      → ((k : ℕ) → Among k before → i ≢ k)
      → IfDone (place_vector v nstates i before p) (Advanced before i p)
  place_vector-Advanced before i p ok lt off =
      elim (Option-cases (matching_vector v nstates i before)) [
        | inl unmatched ↦
            subst (λ m. IfDone m (Advanced before i p))
              (sym (place_vector-none v nstates i before p unmatched))
              (IfDone-map (pack_vector (v i).entries p) _ _
                (λ (place, q) packed. (
                  Packed-IsPacked v before i p ok lt off place q packed,
                  ap (λ (b : List ℕ). length b) packed.base,
                ))
                (pack_vector-Packed (v i).entries p ok.level (distinct i)))
        | inr (j, matched) ↦
            subst (λ m. IfDone m (Advanced before i p))
              (sym (place_vector-some v nstates i j before p matched))
              (
                copied-IsPacked v before i p ok lt off j
                    (matching_vector-Matches v nstates i before j matched),
                refl,
              )
      ]

  -- The table holds all the vectors of `order` and `before`.
  abbrev HoldsAll : List ℕ → List ℕ → Packing → Type 0
  HoldsAll before order r =
      (all : List ℕ) × IsPacked v all r × ((i : ℕ) → Among i before ⊎ Among i order → Among i all)

  pack_loop-HoldsAll :
      (before order : List ℕ) (p : Packing)
      → IsPacked v before p
      → Apart order
      → ((k i : ℕ) → Among k before → Among i order → i ≢ k)
      → ((i : ℕ) → Among i order → i < length p.base)
      → IfDone (pack_loop v nstates before order p) (HoldsAll before order)
  unfolding pack_loop
  pack_loop-HoldsAll before [] p ok apart off inside =
      (before, ok, λ i m. elim m [ inl m' ↦ m' | inr none_left ↦ elim none_left [ ] ])
  pack_loop-HoldsAll before (i ∷ order) p ok (first, apart) off inside =
      IfDone->>= (place_vector v nstates i before p) _ (Advanced before i p) _
        (place_vector-Advanced before i p ok (inside i (inl refl)) (λ k m. off k i m (inl refl)))
        (λ (place, q) (ok', size).
          IfDone-map (pack_loop v nstates (i ∷ before) order (advance i place q)) _ _
            (λ r (all, packed, members). (
              all,
              packed,
              λ k m. elim m [
                | inl m' ↦ members k (inl (inr m'))
                | inr (inl same) ↦ members k (inl (inl same))
                | inr (inr m') ↦ members k (inr m')
              ],
            ))
            (pack_loop-HoldsAll (i ∷ before) order (advance i place q) ok' apart
              (λ k n m m' e. elim m [
                | inl same ↦ first n m' (same ∙ sym e)
                | inr old ↦ off k n old (inr m') e
              ])
              (λ k m.
                let lt = inside k (inr m) in
                let size' = length-set q.base i place in omega (arith, lt, size, size'))))

-- The table answers `t` to a vector of base `c` on `f`.
abbrev pub Answers : Packing → ℕ → ℕ → ℕ → Type 0
Answers p c f t =
    (bias ≤ c + f) × (check_of p (loc_of c f) ≡ some f) × (table_of p (loc_of c f) ≡ t)

-- An entry that the table answers at a vector's base is one of the vector.
Answers-Among :
    (v : ℕ → Vector) (all : List ℕ) (p : Packing) (i f t : ℕ)
    → IsPacked v all p
    → Among i all
    → Answers p (base_of p i) f t
    → Among (f, t) (v i).entries
Answers-Among v all p i f t ok m (lo, check, value) =
    let (k, m', (u, entry), sum) = ok.sound (loc_of (base_of p i) f) f check in
    let same : base_of p k ≡ base_of p i = omega (arith, sum, lo) in
    let entry' = subst (λ es. Among (f, u) es) (ok.one k i m' m same) entry in
    let (lo', check', value') = ok.holds i m f u entry' in
    let ut : u ≡ t = sym value' ∙ value in subst (λ x. Among (f, x) (v i).entries) ut entry'

Among-Answers :
    (v : ℕ → Vector) (all : List ℕ) (p : Packing) (i f t : ℕ)
    → IsPacked v all p
    → Among i all
    → Among (f, t) (v i).entries
    → Answers p (base_of p i) f t
Among-Answers v all p i f t ok m entry = ok.holds i m f t entry

abbrev begun : ℕ → Packing
begun nvectors = record {
  table = replicate 1000 0;
  check = replicate 1000 none;
  lowzero = 0;
  high = 0;
  pos = [];
  base = replicate nvectors bias;
}

pack_table-sorted :
    (v : ℕ → Vector) (nstates nvectors : ℕ)
    → nvectors ≤ maxshort + 1
    → pack_table v nstates nvectors ≡ pack_loop v nstates [] (sorted v nvectors) (begun nvectors)
unfolding pack_table sort_actions
pack_table-sorted v nstates nvectors few = rw (le→not_ltb nvectors (maxshort + 1) few) refl

begun-IsPacked : (v : ℕ → Vector) (nvectors : ℕ) → IsPacked v [] (begun nvectors)
begun-IsPacked v nvectors = record {
  level = length-replicate {A = ℕ} 1000 0 ∙ sym (length-replicate {A = Option ℕ} 1000 none);
  holds = λ i m. elim m [ ];
  sound = λ l f e.
      let clash : none ≡ some f = sym (get_or-replicate {A = Option ℕ} 1000 l none) ∙ e in
      absurd cc;
  taken = λ i m. elim m [ ];
  one = λ i k m. elim m [ ];
  inside = λ i m. elim m [ ];
}

-- Where there are no more than 32768 vectors, and none of them has two entries with one `from`,
-- pack_table ends, and in the table that it leaves, if it leaves one, the entries found at the base of
-- a vector that has entries are exactly the vector's own, though vectors are packed into each other's
-- gaps and equal ones share a place.
pub pack_table-Answers :
    (v : ℕ → Vector) (nstates nvectors : ℕ)
    → nvectors ≤ maxshort + 1
    → ((i : ℕ) → Distinct (v i).entries)
    → (i f t : ℕ) → i < nvectors
    → 0 < tally (v i)
    → Ends
        (pack_table v nstates nvectors)
        (λ p. Answers p (base_of p i) f t ↔ Among (f, t) (v i).entries)
pack_table-Answers v nstates nvectors few distinct i f t lt some_entry =
    Ends-of (pack_table v nstates nvectors) _ (pack_table-ne-stuck v nstates nvectors) (
      rw (pack_table-sorted v nstates nvectors few) (
        IfDone-map (pack_loop v nstates [] (sorted v nvectors) _)
          (HoldsAll v nstates distinct [] (sorted v nvectors)) _
          (λ p (all, ok, members).
            let m = members i (inr ((sorted_lem v nvectors).2 i lt some_entry)) in
            (Answers-Among v all p i f t ok m, Among-Answers v all p i f t ok m))
          (let (apart, below, all_of) = sorted_lem v nvectors in
            let size = length-replicate nvectors bias in
            pack_loop-HoldsAll v nstates distinct [] (sorted v nvectors) _
              (begun-IsPacked v nvectors) apart (λ k n m. elim m [ ])
              (λ k m. let lt' = below k m in omega (arith, lt', size)))))
