-- ===== src/Jay/Vectors.antt =====
-- jay/output.c: the vectors of actions and of gotos, in what order they are packed, and how they are
-- packed into one table. A vector is the list of the pairs of its froms and tos, in step, so that its
-- tally is the length, and [] is a vector that is null. A place in the table may be negative: it is
-- kept with `bias` added. An entry of check is `none` for -1.
pub mod Write
pub mod Place
pub mod Match
pub mod Order
pub mod Entries
pub mod Total
pub mod Loop
use llc.Common.{ℕ, zero, suc, ◌+◌, ◌-◌, ◌*◌, ◌/◌}
use llc.Common.{
  Bool, true, false, ◌&&◌, not, Option, none, some, List, [], ◌∷◌, ◌++◌, length, get_or, set, drop,
  replicate, Run, done, fault, abort, stuck, ◌>>=◌, leb, ltb, ◌==◌, if◌then◌else◌,
}
use mathlib.Core.List.{reverse}
use llc.Jay.Grammar.{maxshort}

pub record Vector : Type 0 where
  pub width : ℕ
  pub entries : List (ℕ × ℕ)

abbrev pub tally : Vector → ℕ
tally v = length v.entries

-- The two while loops of sort_actions and the shift behind them, on the entries of order before the
-- new one, the nearest first: `equal` is whether the second loop has begun.
unfoldable pub insert_widest : (ℕ → Vector) → ℕ → Bool → List ℕ → List ℕ
insert_widest v i equal [] = i ∷ []
insert_widest v i equal (j ∷ before) =
    let wider = j ∷ insert_widest v i false before in
    let fuller = j ∷ insert_widest v i true before in
    if not equal && ltb (v j).width (v i).width
    then wider
    else if (v j).width == (v i).width && ltb (tally (v j)) (tally (v i))
    then fuller
    else i ∷ j ∷ before

-- The outer loop, with `left` vectors from vector `i` on.
unfoldable pub order_loop : (ℕ → Vector) → ℕ → ℕ → List ℕ → List ℕ
order_loop v zero i order = order
order_loop v (suc left) i order =
    order_loop v left (i + 1) (if ltb 0 (tally (v i)) then insert_widest v i false order else order)

-- `order` behind the loops.
unfoldable pub sorted : (ℕ → Vector) → ℕ → List ℕ
sorted v nvectors = reverse (order_loop v nvectors 0 [])

-- sort_actions: order, whose entries are shorts; it is a fault where a vector's number is none.
unfoldable pub sort_actions : (ℕ → Vector) → ℕ → Run (List ℕ)
sort_actions v nvectors = if ltb (maxshort + 1) nvectors then fault else done (sorted v nvectors)

abbrev pub bias : ℕ
bias = 32768

abbrev pub max_table : ℕ
max_table = 32500

pub record Packing : Type 0 where
  pub table : List ℕ
  pub check : List (Option ℕ)
  pub lowzero : ℕ
  pub high : ℕ
  pub pos : List ℕ
  pub base : List ℕ

abbrev pub is_free : Option ℕ → Bool
is_free none = true
is_free (some f) = false

-- The place of an entry of a vector at place `j`.
abbrev pub loc_of : ℕ → ℕ → ℕ
loc_of j f = j + f - bias

-- `j` at the start of pack_vector.
unfoldable pub first_place : ℕ → ℕ → List (ℕ × ℕ) → ℕ
first_place lowzero j [] = j
first_place lowzero j ((f, t) ∷ entries) =
    first_place lowzero (if ltb j (lowzero + bias - f) then lowzero + bias - f else j) entries

-- What is added to maxtable until it is above `loc`.
abbrev pub growth : ℕ → ℕ → ℕ
growth maxtable loc = 200 * ((loc - maxtable) / 200 + 1)

-- `if (loc >= maxtable)`.
unfoldable pub grow : ℕ → Packing → Run Packing
grow loc p =
    let n = growth (length p.check) loc in
    if leb (length p.check) loc
    then (if leb max_table loc
        then abort
        else done
            (record p { table = p.table ++ replicate n 0; check = p.check ++ replicate n none }))
    else done p

-- The loop that asks whether the vector fits at `j`.
unfoldable pub fits : ℕ → List (ℕ × ℕ) → Packing → Run (Bool × Packing)
fits j [] p = done (true, p)
fits j ((f, t) ∷ entries) p = grow (loc_of j f) p >>= λ q.
    if is_free (get_or q.check (loc_of j f) none) then fits j entries q else done (false, q)

-- The loop over pos.
unfoldable pub is_taken : ℕ → List ℕ → Bool
is_taken j [] = false
is_taken j (k ∷ pos) = if k == j then true else is_taken j pos

-- The loop over `j`, on fuel.
unfoldable pub find_place : ℕ → List (ℕ × ℕ) → ℕ → Packing → Run (ℕ × Packing)
find_place zero entries j p = stuck
find_place (suc fuel) entries j p =
    let tried = fits j entries p >>= λ (ok, q).
    let next = find_place fuel entries (j + 1) q in
    if ok && not (is_taken j q.pos) then done (j, q) else next in
    let next = find_place fuel entries (j + 1) p in if j == bias then next else tried

-- The loop that writes the vector.
unfoldable pub write_entries : ℕ → List (ℕ × ℕ) → Packing → Packing
write_entries j [] p = p
write_entries j ((f, t) ∷ entries) p = write_entries j entries (record p {
  table = set p.table (loc_of j f) t;
  check = set p.check (loc_of j f) (some f);
  high = if ltb p.high (loc_of j f) then loc_of j f else p.high;
})

-- The loop that moves lowzero, over check from there on; behind maxtable it reads past the array.
unfoldable pub free_from : ℕ → List (Option ℕ) → Run ℕ
free_from i [] = fault
free_from i (c ∷ check) = let next = free_from (i + 1) check in if is_free c then done i else next

-- pack_vector. Above the greatest table each place is too high, so that the fuel is enough.
unfoldable pub pack_vector : List (ℕ × ℕ) → Packing → Run (ℕ × Packing)
pack_vector [] p = abort
pack_vector ((f, t) ∷ entries) p =
    find_place (max_table + 200 + bias + 1) ((f, t) ∷ entries)
      (first_place p.lowzero (p.lowzero + bias - f) entries) p
    >>= λ (j, q).
        let written = write_entries j ((f, t) ∷ entries) q in
        free_from written.lowzero (drop written.lowzero written.check) >>= λ lowzero.
        done (j, record written { lowzero = lowzero })

-- The comparison of matching_vector.
unfoldable pub same_entries : List (ℕ × ℕ) → List (ℕ × ℕ) → Bool
same_entries [] [] = true
same_entries [] (e ∷ entries) = false
same_entries (e ∷ entries) [] = false
same_entries ((f, t) ∷ entries) ((f', t') ∷ entries') =
    let rest = same_entries entries entries' in if f == f' && t == t' then rest else false

-- The loop over the vectors before vector `i`, the nearest first.
unfoldable pub match_loop : (ℕ → Vector) → ℕ → List ℕ → Option ℕ
match_loop v i [] = none
match_loop v i (j ∷ before) =
    let rest = match_loop v i before in
    if (v j).width == (v i).width && tally (v j) == tally (v i)
    then (if same_entries (v j).entries (v i).entries then some j else rest)
    else none

-- matching_vector, `none` for -1.
unfoldable pub matching_vector : (ℕ → Vector) → ℕ → ℕ → List ℕ → Option ℕ
matching_vector v nstates i before = if leb (2 * nstates) i then none else match_loop v i before

-- The place of a vector, by the answer of matching_vector.
unfoldable pub place_matched : Option ℕ → List (ℕ × ℕ) → Packing → Run (ℕ × Packing)
place_matched none entries p = pack_vector entries p
place_matched (some state) entries p = done (get_or p.base state bias, p)

unfoldable pub place_vector : (ℕ → Vector) → ℕ → ℕ → List ℕ → Packing → Run (ℕ × Packing)
place_vector v nstates i before p =
    place_matched (matching_vector v nstates i before) (v i).entries p

-- The loop of pack_table over order.
unfoldable pub pack_loop : (ℕ → Vector) → ℕ → List ℕ → List ℕ → Packing → Run Packing
pack_loop v nstates before [] p = done p
pack_loop v nstates before (i ∷ order) p = place_vector v nstates i before p >>= λ (place, q).
    pack_loop v nstates (i ∷ before) order
      (record q { pos = q.pos ++ place ∷ []; base = set q.base i place })

-- pack_table, on order.
unfoldable pub pack_table : (ℕ → Vector) → ℕ → ℕ → Run Packing
pack_table v nstates nvectors = sort_actions v nvectors >>= λ order.
    pack_loop v nstates [] order (record {
      table = replicate 1000 0;
      check = replicate 1000 none;
      lowzero = 0;
      high = 0;
      pos = [];
      base = replicate nvectors bias;
    })
