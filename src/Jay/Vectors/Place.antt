-- ===== src/Jay/Vectors/Place.antt =====
-- pack_vector finds a place and writes the vector there.
use llc.Common.{ℕ, zero, suc, ◌+◌, ◌-◌, ◌≤◌, ◌≡◌, ◌≢◌, inl, inr, refl, sym, ap, ◌∙◌, arith}
use llc.Common.{
  Bool, true, false, ◌&&◌, not, both_true, Bool-cases, none, some, List, [], ◌∷◌, length, IfDone,
  IfDone->>=, IfDone-if, IfDone-map, IfDone-any, ltb, ◌==◌, if◌then◌else◌, Among,
}
use llc.Jay.Vectors.{
  Packing, bias, loc_of, first_place, fits, is_taken, find_place, write_entries, free_from,
  pack_vector,
}
use llc.Jay.Vectors.Write.{
  check_of, table_of, Extends, Extends-refl, Extends-trans, AllFree, fits-AllFree, Distinct,
  write_entries-Written,
}

-- A place that find_place answers.
pub record Found (entries : List (ℕ × ℕ)) (least : ℕ) (p : Packing) (j : ℕ) (q : Packing)
    : Type 0 where
  pub least_le : least ≤ j
  pub grown : Extends p q
  pub all_free : AllFree j entries q
  pub new : is_taken j q.pos ≡ false

Found-later :
    (entries : List (ℕ × ℕ)) (j : ℕ) (p q : Packing) (k : ℕ) (r : Packing)
    → Extends p q
    → Found entries (j + 1) q k r
    → Found entries j p k r
Found-later entries j p q k r grown h = record {
  least_le = omega (arith, h.least_le);
  grown = Extends-trans p q r grown h.grown;
  all_free = h.all_free;
  new = h.new;
}

not-false : (b : Bool) → not b ≡ true → b ≡ false
not-false true e = absurd cc
not-false false e = refl

find_place-Found :
    (fuel : ℕ) (entries : List (ℕ × ℕ)) (j : ℕ) (p : Packing)
    → length p.table ≡ length p.check
    → IfDone (find_place fuel entries j p) (λ (k, q). Found entries j p k q)
unfolding find_place
find_place-Found zero entries j p level = tt
find_place-Found (suc fuel) entries j p level =
    IfDone-if (j == bias) _ _ _
      (IfDone-map (find_place fuel entries (j + 1) p) _ _
        (λ (k, r) h. Found-later entries j p p k r (Extends-refl p level) h)
        (find_place-Found fuel entries (j + 1) p level))
      (IfDone->>= (fits j entries p) _ (λ (ok, q). Extends p q × (ok ≡ true → AllFree j entries q))
        _ (fits-AllFree j entries p level)
        (λ (ok, q) (grown, free). elim (Bool-cases (ok && not (is_taken j q.pos))) [
          | inl both ↦
              let (fit, untaken) = both_true ok (not (is_taken j q.pos)) both in
              rw both (record {
                least_le = omega arith;
                grown = grown;
                all_free = free fit;
                new = not-false (is_taken j q.pos) untaken;
              })
          | inr fails ↦ rw fails (
              IfDone-map (find_place fuel entries (j + 1) q) _ _
                (λ (k, r) h. Found-later entries j p q k r grown h)
                (find_place-Found fuel entries (j + 1) q grown.level))
        ]))

first_place-le :
    (lowzero j : ℕ) (entries : List (ℕ × ℕ))
    → (j ≤ first_place lowzero j entries)
      × ((f t : ℕ) → Among (f, t) entries → lowzero + bias ≤ first_place lowzero j entries + f)
unfolding first_place
first_place-le lowzero j [] = (omega arith, λ f t m. elim m [ ])
first_place-le lowzero j ((f, t) ∷ entries) =
    let next = if ltb j (lowzero + bias - f) then lowzero + bias - f else j in
    let (le, each) = first_place-le lowzero next entries in
    let (up, own) : (j ≤ next) × (lowzero + bias ≤ next + f) = ground arith in
    (
      omega (arith, le, up),
      λ g u m. elim m [
        | inr behind ↦ each g u behind
        | inl same ↦ let e : f ≡ g = ap (λ x. x.0) same in omega (arith, e, le, own)
      ],
    )

-- What pack_vector makes of the table.
pub record Packed (entries : List (ℕ × ℕ)) (p : Packing) (k : ℕ) (r : Packing) : Type 0 where
  pub low : (f t : ℕ) → Among (f, t) entries → bias ≤ k + f
  pub there :
      (f t : ℕ)
      → Among (f, t) entries
      → (check_of r (loc_of k f) ≡ some f) × (table_of r (loc_of k f) ≡ t)
  pub was_free : (f t : ℕ) → Among (f, t) entries → check_of p (loc_of k f) ≡ none
  pub elsewhere :
      (l : ℕ)
      → ((f t : ℕ) → Among (f, t) entries → loc_of k f ≢ l)
      → (check_of r l ≡ check_of p l) × (table_of r l ≡ table_of p l)
  pub new : is_taken k p.pos ≡ false
  pub level : length r.table ≡ length r.check
  pub pos : r.pos ≡ p.pos
  pub base : r.base ≡ p.base

written-Packed :
    (entries : List (ℕ × ℕ)) (j : ℕ) (p : Packing) (k : ℕ) (q : Packing) (lowzero : ℕ)
    → Distinct entries
    → ((f t : ℕ) → Among (f, t) entries → bias ≤ j + f)
    → Found entries j p k q
    → Packed entries p k (record (write_entries k entries q) { lowzero = lowzero })
written-Packed entries j p k q lowzero distinct least found =
    let low : (f t : ℕ) → Among (f, t) entries → bias ≤ k + f =
      λ f t m. let le = least f t m in omega (arith, le, found.least_le) in
    let written =
      write_entries-Written k entries q found.grown.level distinct
        (λ f t m. (low f t m, (found.all_free f t m).0)) in
    record {
      low = low;
      there = written.there;
      was_free = λ f t m. sym (found.grown.check (loc_of k f)) ∙ (found.all_free f t m).1;
      elsewhere = λ l off.
          let (a, b) = written.elsewhere l off in
          (a ∙ found.grown.check l, b ∙ found.grown.table l);
      new = ap (λ pos. is_taken k pos) (sym found.grown.pos) ∙ found.new;
      level = written.level;
      pos = written.pos ∙ found.grown.pos;
      base = written.base ∙ found.grown.base;
    }

pub pack_vector-Packed :
    (entries : List (ℕ × ℕ)) (p : Packing)
    → length p.table ≡ length p.check
    → Distinct entries
    → IfDone (pack_vector entries p) (λ (k, r). Packed entries p k r)
unfolding pack_vector
pack_vector-Packed [] p level distinct = tt
pack_vector-Packed ((f, t) ∷ entries) p level distinct =
    let j = first_place p.lowzero (p.lowzero + bias - f) entries in
    let (le, each) = first_place-le p.lowzero (p.lowzero + bias - f) entries in
    IfDone->>= (find_place _ ((f, t) ∷ entries) j p) _ (λ (k, q). Found ((f, t) ∷ entries) j p k q)
      _ (find_place-Found _ ((f, t) ∷ entries) j p level)
      (λ (k, q) found.
        IfDone->>= (free_from _ _) _ (λ a. Unit) _ (IfDone-any _)
          (λ lowzero any.
            written-Packed ((f, t) ∷ entries) j p k q lowzero distinct
              (λ g u m. elim m [
                | inr behind ↦ let lo = each g u behind in omega (arith, lo)
                | inl same ↦ let e : f ≡ g = ap (λ x. x.0) same in omega (arith, e, le)
              ])
              found))
