-- ===== src/Jay/Lalr/Sources.antt =====
-- transpose fills the list of each number with the numbers whose lists it stands in, in order.
use llc.Common.{ℕ, zero, suc, ◌+◌, ◌<◌, ◌≡◌, ◌≢◌, refl, sym, ap, subst, ◌∙◌, arith}
use llc.Common.{
  List, [], ◌∷◌, ◌++◌, map, length, length-map, length-set, length-append, length-replicate, get_or,
  get_or-set_self, get_or-set_ne, get_or-replicate, set, replicate, ==_refl, ==_ne, ◌==◌,
  if◌then◌else◌, append_assoc, append_nil,
}
use native.Mathlib.Decide.{ℕ_discrete}
use llc.Jay.Relations.{Turning}

-- What the loops of transpose leave where no count and no list overflows.
unfoldable pub tally_edges : List ℕ → List ℕ → List ℕ
tally_edges [] nedges = nedges
tally_edges (j ∷ edges) nedges = tally_edges edges (set nedges j (get_or nedges j 0 + 1))

unfoldable pub tally_rows : List (List ℕ) → List ℕ → List ℕ
tally_rows [] nedges = nedges
tally_rows (edges ∷ r) nedges = tally_rows r (tally_edges edges nedges)

unfoldable pub written_edge : ℕ → ℕ → Turning → Turning
written_edge i j s = record {
  new_r = set s.new_r j (set (get_or s.new_r j []) (get_or s.temp_r j 0) i);
  temp_r = set s.temp_r j (get_or s.temp_r j 0 + 1);
}

unfoldable pub filled_edges : ℕ → List ℕ → Turning → Turning
filled_edges i [] s = s
filled_edges i (j ∷ edges) s = filled_edges i edges (written_edge i j s)

unfoldable pub filled_rows : ℕ → List (List ℕ) → Turning → Turning
filled_rows i [] s = s
filled_rows i (edges ∷ r) s = filled_rows (i + 1) r (filled_edges i edges s)

unfoldable pub turned : List (List ℕ) → ℕ → List (List ℕ)
turned r n =
    let nedges = tally_rows r (replicate n 0) in
    (filled_rows 0 r
      (record { new_r = map (λ k. replicate k 0) nedges; temp_r = replicate n 0 })).new_r

-- What is to be written to the list of `j` for the edges from `i`.
unfoldable pub occurrences : ℕ → ℕ → List ℕ → List ℕ
occurrences j i [] = []
occurrences j i (k ∷ edges) = let rest = occurrences j i edges in if k == j then i ∷ rest else rest

-- What is to be written to it for the edges from `i` on.
unfoldable pub sources : ℕ → ℕ → List (List ℕ) → List ℕ
sources j i [] = []
sources j i (edges ∷ r) = occurrences j i edges ++ sources j (i + 1) r

pub length-tally_edges : (edges nedges : List ℕ) → length (tally_edges edges nedges) ≡ length nedges
unfolding tally_edges
length-tally_edges [] nedges = refl
length-tally_edges (j ∷ edges) nedges =
    length-tally_edges edges _ ∙ length-set nedges j (get_or nedges j 0 + 1)

pub length-tally_rows :
    (r : List (List ℕ)) (nedges : List ℕ) → length (tally_rows r nedges) ≡ length nedges
unfolding tally_rows
length-tally_rows [] nedges = refl
length-tally_rows (edges ∷ r) nedges = length-tally_rows r _ ∙ length-tally_edges edges nedges

pub counted :
    (j k i : ℕ) (rest nedges : List ℕ)
    → j < length nedges
    → length rest + get_or (set nedges k (get_or nedges k 0 + 1)) j 0
      ≡ length (if k == j then i ∷ rest else rest) + get_or nedges j 0
counted j k i rest nedges lt = elim (ℕ_discrete k j) [
  | yes same ↦
      rw (same, ==_refl j, get_or-set_self nedges j (get_or nedges j 0 + 1) 0 lt) (omega arith)
  | no ne ↦ rw (==_ne k j ne, get_or-set_ne nedges k j (get_or nedges k 0 + 1) 0 ne) refl
]

pub tally_edges-occurrences :
    (j i : ℕ) (edges nedges : List ℕ)
    → j < length nedges
    → get_or (tally_edges edges nedges) j 0 ≡ length (occurrences j i edges) + get_or nedges j 0
unfolding tally_edges occurrences
tally_edges-occurrences j i [] nedges lt = omega arith
tally_edges-occurrences j i (k ∷ edges) nedges lt =
    let size = length-set nedges k (get_or nedges k 0 + 1) in
    tally_edges-occurrences j i edges _ (subst (λ n. j < n) (sym size) lt)
    ∙ counted j k i (occurrences j i edges) nedges lt

pub tally_rows-sources :
    (j i : ℕ) (r : List (List ℕ)) (nedges : List ℕ)
    → j < length nedges
    → get_or (tally_rows r nedges) j 0 ≡ length (sources j i r) + get_or nedges j 0
unfolding tally_rows sources
tally_rows-sources j i [] nedges lt = omega arith
tally_rows-sources j i (edges ∷ r) nedges lt =
    let size = length-tally_edges edges nedges in
    let rest = tally_rows-sources j (i + 1) r (tally_edges edges nedges) (omega (arith, size)) in
    let now = tally_edges-occurrences j i edges nedges lt in
    let both = length-append (occurrences j i edges) (sources j (i + 1) r) in
    omega (arith, rest, now, both)

-- The list of `j` has `written` and room for `left` more, and its place is behind `written`.
pub record FilledAt (j : ℕ) (s : Turning) (written : List ℕ) (left : ℕ) : Type 0 where
  pub block : get_or s.new_r j [] ≡ written ++ replicate left 0
  pub place : get_or s.temp_r j 0 ≡ length written
  pub in_rows : j < length s.new_r
  pub in_places : j < length s.temp_r

set-behind :
    (written rest : List ℕ) (x i : ℕ)
    → set (written ++ x ∷ rest) (length written) i ≡ (written ++ i ∷ []) ++ rest
set-behind [] rest x i = refl
set-behind (y ∷ written) rest x i = ap (λ (xs : List ℕ). y ∷ xs) (set-behind written rest x i)

written_edge-same :
    (j i : ℕ) (s : Turning) (written : List ℕ) (left : ℕ)
    → FilledAt j s written (suc left)
    → FilledAt j (written_edge i j s) (written ++ i ∷ []) left
unfolding written_edge
written_edge-same j i s written left h = record {
  block =
      get_or-set_self s.new_r j (set (get_or s.new_r j []) (get_or s.temp_r j 0) i) [] h.in_rows
      ∙ rw (h.block, h.place) (set-behind written (replicate left 0) 0 i);
  place =
      get_or-set_self s.temp_r j (get_or s.temp_r j 0 + 1) 0 h.in_places
      ∙ omega (arith, h.place, length-append written (i ∷ []));
  in_rows =
      omega (
        arith,
        h.in_rows,
        length-set s.new_r j (set (get_or s.new_r j []) (get_or s.temp_r j 0) i),
      );
  in_places = omega (arith, h.in_places, length-set s.temp_r j (get_or s.temp_r j 0 + 1));
}

written_edge-other :
    (j k i : ℕ) (s : Turning) (written : List ℕ) (left : ℕ)
    → k ≢ j
    → FilledAt j s written left
    → FilledAt j (written_edge i k s) written left
unfolding written_edge
written_edge-other j k i s written left ne h = record {
  block =
      get_or-set_ne s.new_r k j (set (get_or s.new_r k []) (get_or s.temp_r k 0) i) [] ne ∙ h.block;
  place = get_or-set_ne s.temp_r k j (get_or s.temp_r k 0 + 1) 0 ne ∙ h.place;
  in_rows =
      omega (
        arith,
        h.in_rows,
        length-set s.new_r k (set (get_or s.new_r k []) (get_or s.temp_r k 0) i),
      );
  in_places = omega (arith, h.in_places, length-set s.temp_r k (get_or s.temp_r k 0 + 1));
}

pub FilledAt-cong :
    (j : ℕ) (s : Turning) (written written' : List ℕ) (left left' : ℕ)
    → written ≡ written'
    → left ≡ left'
    → FilledAt j s written left
    → FilledAt j s written' left'
FilledAt-cong j s written written' left left' e e' h =
    subst (λ n. FilledAt j s written' n) e' (subst (λ xs. FilledAt j s xs left) e h)

-- What written_edge adds to the list of `j`, before `rest`.
pub written_edge-FilledAt :
    (j k i : ℕ) (s : Turning) (written rest : List ℕ) (left : ℕ)
    → FilledAt j s written (length (if k == j then i ∷ rest else rest) + left)
    → (added : List ℕ) × FilledAt j (written_edge i k s) added (length rest + left)
      × (added ++ rest ≡ written ++ (if k == j then i ∷ rest else rest))
written_edge-FilledAt j k i s written rest left h = elim (ℕ_discrete k j) [
  | yes same ↦ rw same (
    written ++ i ∷ [],
    written_edge-same j i s written (length rest + left)
        (FilledAt-cong j s written written _ _ refl (rw (same, ==_refl j) (omega arith)) h),
    rw (==_refl j) (append_assoc written (i ∷ []) rest),
  )
  | no ne ↦ (
    written,
    written_edge-other j k i s written (length rest + left) ne
        (FilledAt-cong j s written written _ _ refl (rw (==_ne k j ne) refl) h),
    rw (==_ne k j ne) refl,
  )
]

pub filled_edges-occurrences :
    (j i : ℕ) (edges : List ℕ) (s : Turning) (written : List ℕ) (left : ℕ)
    → FilledAt j s written (length (occurrences j i edges) + left)
    → FilledAt j (filled_edges i edges s) (written ++ occurrences j i edges) left
unfolding filled_edges occurrences
filled_edges-occurrences j i [] s written left h =
    FilledAt-cong j s written _ _ left (sym (append_nil written)) (omega arith) h
filled_edges-occurrences j i (k ∷ edges) s written left h =
    let (added, now, e) = written_edge-FilledAt j k i s written (occurrences j i edges) left h in
    FilledAt-cong j _ _ _ left left e refl (filled_edges-occurrences j i edges _ added left now)

filled_rows-sources :
    (j i : ℕ) (r : List (List ℕ)) (s : Turning) (written : List ℕ) (left : ℕ)
    → FilledAt j s written (length (sources j i r) + left)
    → FilledAt j (filled_rows i r s) (written ++ sources j i r) left
unfolding filled_rows sources
filled_rows-sources j i [] s written left h =
    FilledAt-cong j s written _ _ left (sym (append_nil written)) (omega arith) h
filled_rows-sources j i (edges ∷ r) s written left h =
    let both = length-append (occurrences j i edges) (sources j (i + 1) r) in
    let now =
      filled_edges-occurrences j i edges s written (length (sources j (i + 1) r) + left)
        (FilledAt-cong j s written written _ _ refl (omega (arith, both)) h) in
    FilledAt-cong j _ _ _ left left (append_assoc written _ _) refl
      (filled_rows-sources j (i + 1) r _ _ left now)

pub get_or-blocks :
    (nedges : List ℕ) (j : ℕ)
    → get_or (map (λ k. replicate {A = ℕ} k 0) nedges) j [] ≡ replicate (get_or nedges j 0) 0
get_or-blocks [] j = refl
get_or-blocks (k ∷ nedges) zero = refl
get_or-blocks (k ∷ nedges) (suc j) = get_or-blocks nedges j

abbrev pub begin_turning : List (List ℕ) → ℕ → Turning
begin_turning r n = record {
  new_r = map (λ k. replicate k 0) (tally_rows r (replicate n 0));
  temp_r = replicate n 0;
}

-- At the start each list has room for its sources.
pub begin-FilledAt :
    (r : List (List ℕ)) (n j : ℕ)
    → j < n
    → FilledAt j (begin_turning r n) [] (length (sources j 0 r) + 0)
begin-FilledAt r n j lt =
    let zero_counts = length-replicate {A = ℕ} n 0 in
    let size = length-tally_rows r (replicate n 0) in
    let count = tally_rows-sources j 0 r (replicate n 0) (omega (arith, zero_counts)) in
    let none_yet = get_or-replicate {A = ℕ} n j 0 in
    let blocks = length-map (tally_rows r (replicate n 0)) (λ k. replicate {A = ℕ} k 0) in
    record {
      block =
          get_or-blocks (tally_rows r (replicate n 0)) j
          ∙ ap (λ k. replicate {A = ℕ} k 0) (omega (arith, count, none_yet));
      place = none_yet;
      in_rows = omega (arith, blocks, size, zero_counts);
      in_places = omega (arith, zero_counts);
    }

-- The list of each number below n is that of its sources: all its places are written.
pub turned-sources :
    (r : List (List ℕ)) (n j : ℕ) → j < n → get_or (turned r n) j [] ≡ sources j 0 r
unfolding turned
turned-sources r n j lt =
    let filled = filled_rows-sources j 0 r _ [] 0 (begin-FilledAt r n j lt) in
    filled.block ∙ append_nil (sources j 0 r)

length-filled_edges :
    (i : ℕ) (edges : List ℕ) (s : Turning) → length (filled_edges i edges s).new_r ≡ length s.new_r
unfolding filled_edges written_edge
length-filled_edges i [] s = refl
length-filled_edges i (j ∷ edges) s =
    length-filled_edges i edges (written_edge i j s) ∙ length-set s.new_r j _

length-filled_rows :
    (i : ℕ) (r : List (List ℕ)) (s : Turning) → length (filled_rows i r s).new_r ≡ length s.new_r
unfolding filled_rows
length-filled_rows i [] s = refl
length-filled_rows i (edges ∷ r) s = length-filled_rows (i + 1) r _ ∙ length-filled_edges i edges s

pub length-turned : (r : List (List ℕ)) (n : ℕ) → length (turned r n) ≡ n
unfolding turned
length-turned r n =
    length-filled_rows 0 r _
    ∙ length-map (tally_rows r (replicate n 0)) (λ k. replicate {A = ℕ} k 0)
    ∙ length-tally_rows r (replicate n 0)
    ∙ length-replicate n 0
