-- ===== src/Jay/Vectors/Total.antt =====
-- pack_table ends: a place that is too high ends the program.
use llc.Common.{ℕ, zero, suc, ◌+◌, ◌≤◌, ◌<◌, ◌≡◌, ◌≢◌, inl, inr, refl, ◌∙◌, arith}
use llc.Common.{
  ◌&&◌, not, Bool-cases, Option, none, some, List, [], ◌∷◌, length, length-set, length-append,
  length-replicate, get_or, replicate, stuck, fault-ne-stuck, Ends, Ends->>=, Ends-map,
  Ends-ne-stuck, leb, ltb, ◌==◌,
}
use llc.Jay.Grammar.{maxshort}
use llc.Jay.Vectors.{
  Vector, Packing, bias, max_table, loc_of, is_free, growth, grow, fits, is_taken, find_place,
  write_entries, free_from, pack_vector, matching_vector, place_matched, place_vector, pack_loop,
  pack_table, sort_actions, sorted,
}

-- A table never grows past this.
abbrev limit : ℕ
limit = 32700

abbrev Small : Packing → Type 0
Small p = length p.check ≤ limit

grow-Small : (loc : ℕ) (p : Packing) → Small p → Ends (grow loc p) (λ q. Small q × (loc < limit))
unfolding grow
grow-Small loc p small = elim (Bool-cases (leb (length p.check) loc)) [
  | inr inside ↦
      let lt : loc < length p.check = ground (arith, inside) in
      rw inside (small, omega (arith, small, lt))
  | inl outside ↦ elim (Bool-cases (leb max_table loc)) [
    | inl high ↦ rw (outside, high) tt
    | inr low ↦
        let n = growth (length p.check) loc in
        let size = length-append p.check (replicate n none) in
        let size' = length-replicate {A = Option ℕ} n none in
        let lt : loc < max_table = ground (arith, low) in
        let le : length p.check ≤ loc = ground (arith, outside) in
        rw (outside, low) (omega (arith, size, size', lt, le), omega (arith, lt))
  ]
]

-- A vector with entries fits nowhere from `limit` on.
fits-Small :
    (j : ℕ) (entries : List (ℕ × ℕ)) (p : Packing)
    → Small p
    → Ends (fits j entries p) (λ (ok, q). Small q)
unfolding fits
fits-Small j [] p small = small
fits-Small j ((f, t) ∷ entries) p small =
    Ends->>= (grow (loc_of j f) p) _ (λ q. Small q × (loc_of j f < limit)) _
      (grow-Small (loc_of j f) p small)
      (λ q (small', lt). elim (Bool-cases (is_free (get_or q.check (loc_of j f) none))) [
        | inl free ↦ rw free (fits-Small j entries q small')
        | inr taken ↦ rw taken small'
      ])

fits-lt :
    (j f t : ℕ) (entries : List (ℕ × ℕ)) (p : Packing)
    → Small p
    → Ends (fits j ((f, t) ∷ entries) p) (λ (ok, q). Small q × (j < limit + bias))
unfolding fits
fits-lt j f t entries p small =
    Ends->>= (grow (loc_of j f) p) _ (λ q. Small q × (loc_of j f < limit)) _
      (grow-Small (loc_of j f) p small)
      (λ q (small', lt). elim (Bool-cases (is_free (get_or q.check (loc_of j f) none))) [
        | inl free ↦ rw free (
            Ends-map (fits j entries q) _ _ (λ (ok, r) s. (s, omega (arith, lt)))
              (fits-Small j entries q small'))
        | inr taken ↦ rw taken (small', omega (arith, lt))
      ])

-- From place `j` on, the fuel lasts up to the first place that is too high.
find_place-Small :
    (fuel f t : ℕ) (entries : List (ℕ × ℕ)) (j : ℕ) (p : Packing)
    → 0 < fuel
    → limit + bias < fuel + j
    → Small p
    → Ends (find_place fuel ((f, t) ∷ entries) j p) (λ (k, q). Small q)
unfolding find_place
find_place-Small zero f t entries j p some_fuel enough small = absurd (omega arith)
find_place-Small (suc fuel) f t entries j p some_fuel enough small = elim (Bool-cases (j == bias)) [
  | inl zero_place ↦
      let e : j ≡ bias = ground (arith, zero_place) in
      rw zero_place
        (find_place-Small fuel f t entries (j + 1) p (omega (arith, e)) (omega arith) small)
  | inr other ↦ rw other (
      Ends->>= (fits j ((f, t) ∷ entries) p) _ (λ (ok, q). Small q × (j < limit + bias)) _
        (fits-lt j f t entries p small)
        (λ (ok, q) (small', lt). elim (Bool-cases (ok && not (is_taken j q.pos))) [
          | inl found ↦ rw found small'
          | inr fails ↦
              rw fails (
                find_place-Small fuel f t entries (j + 1) q (omega (arith, lt)) (omega arith)
                  small')
        ]))
]

length-write_entries :
    (j : ℕ) (entries : List (ℕ × ℕ)) (p : Packing)
    → length (write_entries j entries p).check ≡ length p.check
unfolding write_entries
length-write_entries j [] p = refl
length-write_entries j ((f, t) ∷ entries) p =
    length-write_entries j entries _ ∙ length-set p.check (loc_of j f) (some f)

free_from-Ends : (i : ℕ) (check : List (Option ℕ)) → Ends (free_from i check) (λ a. Unit)
unfolding free_from
free_from-Ends i [] = tt
free_from-Ends i (none ∷ check) = tt
free_from-Ends i (some f ∷ check) = free_from-Ends (i + 1) check

pack_vector-Small :
    (entries : List (ℕ × ℕ)) (p : Packing)
    → Small p
    → Ends (pack_vector entries p) (λ (k, q). Small q)
unfolding pack_vector
pack_vector-Small [] p small = tt
pack_vector-Small ((f, t) ∷ entries) p small =
    Ends->>= (find_place _ ((f, t) ∷ entries) _ p) _ (λ (k, q). Small q) _
      (find_place-Small _ f t entries _ p (omega arith) (omega arith) small)
      (λ (j, q) small'.
        let size = length-write_entries j ((f, t) ∷ entries) q in
        Ends->>= (free_from _ _) _ (λ a. Unit) _ (free_from-Ends _ _)
          (λ lowzero any. omega (arith, size, small')))

place_matched-Small :
    (o : Option ℕ) (entries : List (ℕ × ℕ)) (p : Packing)
    → Small p
    → Ends (place_matched o entries p) (λ (k, q). Small q)
unfolding place_matched
place_matched-Small none entries p small = pack_vector-Small entries p small
place_matched-Small (some state) entries p small = small

pack_loop-Small :
    (v : ℕ → Vector) (nstates : ℕ) (before order : List ℕ) (p : Packing)
    → Small p
    → Ends (pack_loop v nstates before order p) Small
unfolding pack_loop place_vector
pack_loop-Small v nstates before [] p small = small
pack_loop-Small v nstates before (i ∷ order) p small =
    Ends->>= (place_matched (matching_vector v nstates i before) (v i).entries p) _
      (λ (k, q). Small q) _ (place_matched-Small _ (v i).entries p small)
      (λ (place, q) small'. pack_loop-Small v nstates (i ∷ before) order _ small')

-- pack_table ends, with the table or with the program.
pub pack_table-ne-stuck :
    (v : ℕ → Vector) (nstates nvectors : ℕ) → pack_table v nstates nvectors ≢ stuck
unfolding pack_table sort_actions
pack_table-ne-stuck v nstates nvectors =
    let size = length-replicate {A = Option ℕ} 1000 none in
    elim (Bool-cases (ltb (maxshort + 1) nvectors)) [
      | inl many ↦ rw many fault-ne-stuck
      | inr few ↦ rw few (
          Ends-ne-stuck (pack_loop v nstates [] (sorted v nvectors) _) Small
            (pack_loop-Small v nstates [] (sorted v nvectors) _ (omega (arith, size))))
    ]
