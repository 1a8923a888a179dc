-- ===== src/Jay/Lalr/Filling.antt =====
-- transpose ends, where no number stands in the lists more often than a short can count.
use llc.Common.{ℕ, zero, suc, ◌+◌, ◌≤◌, ◌<◌, ◌≡◌, inl, inr, refl, sym, ap, ◌∙◌, arith}
use llc.Common.{
  some, List, [], ◌∷◌, ◌++◌, length, length-set, length-append, length-replicate, get_or,
  get_or-replicate, get_or-set_self, get_elem?, set, replicate, done, ==_refl, if◌then◌else◌, ◌==◌,
  Among,
}
use llc.Jay.Grammar.{maxshort}
use llc.Jay.Relations.{
  Turning, count_edges, count_rows, write_edge, fill_edges, fill_rows, transpose,
}
use llc.Jay.Lalr.Sources.{
  tally_edges, tally_rows, written_edge, filled_edges, filled_rows, turned, occurrences, sources,
  length-tally_edges, counted, tally_edges-occurrences, FilledAt, FilledAt-cong,
  written_edge-FilledAt, filled_edges-occurrences, begin_turning, begin-FilledAt,
}

get_elem?-get_or : (xs : List ℕ) (i : ℕ) → i < length xs → get_elem? xs i ≡ some (get_or xs i 0)
get_elem?-get_or [] i lt = absurd (omega arith)
get_elem?-get_or (x ∷ xs) zero lt = refl
get_elem?-get_or (x ∷ xs) (suc i) lt = get_elem?-get_or xs i (omega arith)

module _ (n : ℕ) where
  count_edges-step :
      (j k : ℕ) (edges nedges : List ℕ)
      → get_elem? nedges j ≡ some k
      → k < maxshort
      → count_edges (j ∷ edges) nedges ≡ count_edges edges (set nedges j (k + 1))
  unfolding count_edges
  count_edges-step j k edges nedges e lt = ground (arith, e)

  write_edge-step :
      (i j place : ℕ) (s : Turning)
      → get_elem? s.temp_r j ≡ some place
      → place < length (get_or s.new_r j [])
      → write_edge i j s
        ≡ done (record {
          new_r = set s.new_r j (set (get_or s.new_r j []) place i);
          temp_r = set s.temp_r j (place + 1);
        })
  unfolding write_edge
  write_edge-step i j place s e lt = ground (arith, e)

  count_edges-runs :
      (i : ℕ) (edges nedges : List ℕ)
      → length nedges ≡ n
      → ((j : ℕ) → Among j edges → j < n)
      → ((j : ℕ) → j < n → length (occurrences j i edges) + get_or nedges j 0 ≤ maxshort)
      → count_edges edges nedges ≡ done (tally_edges edges nedges)
  unfolding tally_edges occurrences count_edges
  count_edges-runs i [] nedges size inside few = refl
  count_edges-runs i (k ∷ edges) nedges size inside few =
      let lt = inside k (inl refl) in
      let here = few k lt in
      let same = counted k k i (occurrences k i edges) nedges (omega arith) in
      let own = get_or-set_self nedges k (get_or nedges k 0 + 1) 0 (omega arith) in
      count_edges-step k (get_or nedges k 0) edges nedges (get_elem?-get_or nedges k (omega arith))
        (omega arith)
      ∙ (count_edges-runs i edges (set nedges k (get_or nedges k 0 + 1))
          (length-set nedges k (get_or nedges k 0 + 1) ∙ size) (λ j m. inside j (inr m))
          (λ j j_lt.
            let le = few j j_lt in
            let e = counted j k i (occurrences j i edges) nedges (omega arith) in omega arith))

  count_rows-runs :
      (i : ℕ) (r : List (List ℕ)) (nedges : List ℕ)
      → length nedges ≡ n
      → ((m j : ℕ) → Among j (get_or r m []) → j < n)
      → ((j : ℕ) → j < n → length (sources j i r) + get_or nedges j 0 ≤ maxshort)
      → count_rows (length r) r nedges ≡ done (tally_rows r nedges)
  unfolding count_rows tally_rows sources
  count_rows-runs i [] nedges size inside few = refl
  count_rows-runs i (edges ∷ r) nedges size inside few =
      let both = λ (j : ℕ). length-append (occurrences j i edges) (sources j (i + 1) r) in
      let now =
        count_edges-runs i edges nedges size (inside 0)
          (λ j lt. let le = few j lt in let e = both j in omega arith) in
      rw now (
        count_rows-runs (i + 1) r (tally_edges edges nedges)
          (length-tally_edges edges nedges ∙ size) (λ m. inside (suc m))
          (λ j lt.
            let le = few j lt in
            let e = both j in
            let t = tally_edges-occurrences j i edges nedges (omega arith) in omega arith))

  -- Each list has room for what the edges from `i` add, and for `left` more.
  abbrev Ready : ℕ → List ℕ → (ℕ → ℕ) → Turning → Type 0
  Ready i edges left s =
      (j : ℕ)
      → j < n
      → (written : List ℕ) × FilledAt j s written (length (occurrences j i edges) + left j)

  length-replicate_append :
      (written : List ℕ) (k : ℕ) → length (written ++ replicate k 0) ≡ length written + k
  length-replicate_append written k =
      omega (arith, length-append written (replicate k 0), length-replicate {A = ℕ} k 0)

  write_edge-runs :
      (i j : ℕ) (s : Turning) (written : List ℕ) (left : ℕ)
      → FilledAt j s written (suc left)
      → write_edge i j s ≡ done (written_edge i j s)
  unfolding written_edge
  write_edge-runs i j s written left ok =
      let size = ap length ok.block in
      let long = length-replicate_append written (suc left) in
      let place = ok.place in
      let room : get_or s.temp_r j 0 < length (get_or s.new_r j []) = omega arith in
      write_edge-step i j (get_or s.temp_r j 0) s (get_elem?-get_or s.temp_r j ok.in_places) room

  fill_edges-runs :
      (i : ℕ) (edges : List ℕ) (s : Turning) (left : ℕ → ℕ)
      → ((j : ℕ) → Among j edges → j < n)
      → Ready i edges left s
      → fill_edges i edges s ≡ done (filled_edges i edges s)
  unfolding fill_edges filled_edges occurrences
  fill_edges-runs i [] s left inside ready = refl
  fill_edges-runs i (k ∷ edges) s left inside ready =
      let (written, ok) = ready k (inside k (inl refl)) in
      let more : (if k == k then i ∷ occurrences k i edges else occurrences k i edges)
          ≡ i ∷ occurrences k i edges =
        rw (==_refl k) refl in
      let room =
        FilledAt-cong k s written written _ (suc (length (occurrences k i edges) + left k)) refl
          (ap (λ xs. length xs + left k) more ∙ omega arith) ok in
      rw (write_edge-runs i k s written (length (occurrences k i edges) + left k) room) (
        fill_edges-runs i edges (written_edge i k s) left (λ j m. inside j (inr m))
          (λ j lt.
            let (written', ok') = ready j lt in
            let (added, ok'', e) =
              written_edge-FilledAt j k i s written' (occurrences j i edges) (left j) ok' in
            (added, ok'')))

  fill_rows-runs :
      (i : ℕ) (r : List (List ℕ)) (s : Turning)
      → ((m j : ℕ) → Among j (get_or r m []) → j < n)
      → ((j : ℕ) → j < n → (written : List ℕ) × FilledAt j s written (length (sources j i r) + 0))
      → fill_rows (length r) i r s ≡ done (filled_rows i r s)
  unfolding fill_rows filled_rows sources
  fill_rows-runs i [] s inside ready = refl
  fill_rows-runs i (edges ∷ r) s inside ready =
      let left : ℕ → ℕ = λ j. length (sources j (i + 1) r) + 0 in
      let here : Ready i edges left s = λ j lt.
        let (written, ok) = ready j lt in
        let both = length-append (occurrences j i edges) (sources j (i + 1) r) in
        (written, FilledAt-cong j s written written _ _ refl (omega arith) ok) in
      rw (fill_edges-runs i edges s left (inside 0) here) (
        fill_rows-runs (i + 1) r (filled_edges i edges s) (λ m. inside (suc m))
          (λ j lt.
            let (written, ok) = here j lt in
            (
              written ++ occurrences j i edges,
              filled_edges-occurrences j i edges s written (left j) ok,
            )))

-- transpose ends on a relation between `n` numbers, of which none stands in the lists more than
-- MAXSHORT times.
pub transpose-turned :
    (r : List (List ℕ)) (n : ℕ)
    → length r ≡ n
    → ((i j : ℕ) → Among j (get_or r i []) → j < n)
    → ((j : ℕ) → j < n → length (sources j 0 r) ≤ maxshort)
    → transpose r n ≡ done (turned r n)
unfolding transpose turned
transpose-turned r n size inside few =
    let counts : count_rows n r (replicate n 0) ≡ done (tally_rows r (replicate n 0)) =
      ap (λ k. count_rows k r (replicate n 0)) (sym size)
      ∙ count_rows-runs n 0 r (replicate n 0) (length-replicate {A = ℕ} n 0) inside
          (λ j lt. let le = few j lt in let z = get_or-replicate {A = ℕ} n j 0 in omega arith) in
    let fills : fill_rows n 0 r (begin_turning r n) ≡ done (filled_rows 0 r (begin_turning r n)) =
      ap (λ k. fill_rows k 0 r (begin_turning r n)) (sym size)
      ∙ fill_rows-runs n 0 r (begin_turning r n) inside (λ j lt. ([], begin-FilledAt r n j lt)) in
    rw (counts, fills) refl
