-- ===== src/Tests/Vectors.antt =====
-- The theorems about the packing of the vectors in jay/output.c on three rows and a column.
use llc.Common.{ℕ, zero, suc, ◌≡◌, ◌↔◌, inl, inr, refl, ap, arith}
use llc.Common.{List, [], ◌∷◌, Run, done, fault, abort, stuck, Ends, Among}
use llc.Jay.Vectors.{
  Vector, Packing, insert_widest, order_loop, sort_actions, sorted, first_place, grow, fits,
  is_taken, find_place, write_entries, free_from, pack_vector, same_entries, match_loop,
  matching_vector, place_matched, place_vector, pack_loop, pack_table,
}
use llc.Jay.Vectors.Write.{Distinct}
use llc.Jay.Vectors.Entries.{base_of}
use llc.Jay.Vectors.Loop.{Answers, pack_table-Answers}

-- The shifts and the reductions of two states: the shifts are the same ones. Then a column.
abbrev vectors : ℕ → Vector
vectors zero = record { width = 4; entries = (1, 5) ∷ (4, 7) ∷ [] }
vectors (suc zero) = record { width = 4; entries = (1, 5) ∷ (4, 7) ∷ [] }
vectors (suc (suc zero)) = record { width = 2; entries = (2, 3) ∷ (3, 3) ∷ [] }
vectors (suc (suc (suc zero))) = record { width = 0; entries = [] }
vectors (suc (suc (suc (suc zero)))) = record { width = 1; entries = (0, 9) ∷ [] }
vectors (suc (suc (suc (suc (suc i))))) = record { width = 0; entries = [] }

vectors-Distinct : (i : ℕ) → Distinct (vectors i).entries
vectors-Distinct zero = (
  λ g u m. elim m [
    | inl e ↦ λ e'. let s : 4 ≡ g = ap (λ (x : ℕ × ℕ). x.0) e in absurd (omega (arith, e', s))
    | inr none_left ↦ elim none_left [ ]
  ],
  (λ g u m. elim m [ ], tt),
)
vectors-Distinct (suc zero) = vectors-Distinct zero
vectors-Distinct (suc (suc zero)) = (
  λ g u m. elim m [
    | inl e ↦ λ e'. let s : 3 ≡ g = ap (λ (x : ℕ × ℕ). x.0) e in absurd (omega (arith, e', s))
    | inr none_left ↦ elim none_left [ ]
  ],
  (λ g u m. elim m [ ], tt),
)
vectors-Distinct (suc (suc (suc zero))) = tt
vectors-Distinct (suc (suc (suc (suc zero)))) = (λ g u m. elim m [ ], tt)
vectors-Distinct (suc (suc (suc (suc (suc i))))) = tt

sort_actions_runs : sort_actions vectors 5 ≡ done (0 ∷ 1 ∷ 2 ∷ 4 ∷ [])
unfolding sort_actions sorted order_loop insert_widest
sort_actions_runs = refl

abbrev bases : Run Packing → List ℕ
bases (done p) = p.base
bases fault = []
bases abort = []
bases stuck = []

-- -1 for both rows of shifts, 2 for the reductions, since -1 is taken, and 1 for the column.
pack_table_runs : bases (pack_table vectors 2 5) ≡ 32767 ∷ 32767 ∷ 32770 ∷ 32768 ∷ 32769 ∷ []
unfolding pack_table pack_loop place_vector place_matched matching_vector match_loop same_entries
    pack_vector free_from write_entries find_place is_taken fits grow first_place sort_actions
    sorted order_loop insert_widest
pack_table_runs = refl

pack_table-Answers_example :
    Ends
      (pack_table vectors 2 5)
      (λ p. Answers p (base_of p 2) 3 3 ↔ Among (3, 3) (vectors 2).entries)
pack_table-Answers_example =
    pack_table-Answers vectors 2 5 (omega arith) vectors-Distinct 2 3 3 (omega arith) (omega arith)
