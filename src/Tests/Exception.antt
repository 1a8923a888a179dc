-- ===== src/Tests/Exception.antt =====
-- The theorems about lrt-exception.c on concrete tables.
use llc.Common.{ℕ, zero, suc, ◌+◌, ◌^◌, ◌≤◌, ◌<◌, ◌≡◌, ◌≢◌, ◌↔◌, inl, inr, refl, arith, get_elem?}
use llc.Common.{none, some, List, [], ◌∷◌, done, fault, stuck, ◌==◌, if◌then◌else◌}
use llc.Exception.Words.{Words, load_word}
use llc.Exception.Tables.{LineRecord, UnwindRecord, search_table, linear_search, take_match}
use llc.Exception.Tables.Binary.{IsOrdered}
use llc.Exception.Tables.Last.{search_table_again, search_table_misses_last}
use llc.Exception.Registry.{Node, search_tables, search_registry}
use llc.Exception.Registry.Sound.{FoundAmong, search_tables-FoundAmong, search_tables-eq-fault}
use llc.Exception.Cache.{
  State, Found, empty_cache, find_unwind_info, find_in_tables, find_cached_unwind_info, chain_hit,
  hash, commit, follow_hit,
}
use llc.Exception.Cache.Valid.{empty_cache-IsValid}
use llc.Exception.Cache.Lookup.{IsAnswer, find_unwind_info-IsAnswer}
use llc.Exception.Cache.Repeat.{find_unwind_info_repeats}
use llc.Exception.Classes.{get_super_vtable, shift_vtable, catches}
use llc.Exception.Classes.Ancestors.{Ancestors, root, below, contains, catches-contains}
use llc.Exception.Handlers.{find_method_handler}
use llc.Exception.Handlers.Chain.{
  Leads, Catches, arrived, linked, adjacent, find_method_handler-Leads,
  find_method_handler_undefined,
}
use llc.Exception.Lines.{line_of}
use llc.Exception.Lines.Sorted.{line_of-between, line_of-outside}
use llc.Exception.Frames.{unwind_stack}
use llc.Exception.Frames.Total.{EndsWithin, unwind_stack-ne-stuck}

abbrev method : ℕ → ℕ → UnwindRecord
method start size = record {
  method_start = start;
  method_length = size;
  method_name = none;
  line_numbers = none;
  flags = 0;
}

-- Two methods next to each other.
abbrev methods : List UnwindRecord
methods = method 100 50 ∷ method 150 30 ∷ []

methods_fits :
    (i : ℕ) (a : UnwindRecord)
    → get_elem? methods i ≡ some a
    → a.method_start + a.method_length < 2 ^ 64
methods_fits zero a e = let same : method 100 50 ≡ a = cc in ground (arith, same)
methods_fits (suc zero) a e = let same : method 150 30 ≡ a = cc in ground (arith, same)
methods_fits (suc (suc i)) a e = cc

methods_before :
    (i j : ℕ) (a b : UnwindRecord)
    → i < j
    → get_elem? methods i ≡ some a
    → get_elem? methods j ≡ some b
    → a.method_start + a.method_length ≤ b.method_start
methods_before i zero a b h e e' = absurd (omega arith)
methods_before zero (suc zero) a b h e e' =
    let first : method 100 50 ≡ a = cc in
    let second : method 150 30 ≡ b = cc in ground (arith, first, second)
methods_before (suc i) (suc zero) a b h e e' = absurd (omega arith)
methods_before i (suc (suc j)) a b h e e' = cc

methods-IsOrdered : IsOrdered methods
methods-IsOrdered = record { fits = methods_fits; before = methods_before }

search_table_again_example : search_table 110 methods 2 ≡ done (some (method 100 50), 2)
search_table_again_example =
    search_table_again 110 methods methods-IsOrdered 0 (method 100 50) refl (omega arith)
      (omega arith) (inl (omega arith)) (omega arith)

search_table_misses_last_example : search_table 160 methods 2 ≡ done (none, 2)
search_table_misses_last_example =
    search_table_misses_last 160 methods methods-IsOrdered 1 (method 150 30) refl (omega arith)
      (omega arith) refl (omega arith)

abbrev node : Node
node = record { head = some methods; length = 0 }

abbrev empty_node : Node
empty_node = record { head = some []; length = 0 }

in_tables :
    search_tables 110 [] 0 (node ∷ empty_node ∷ [])
    ≡ done (some (method 100 50), 0, node ∷ record { head = some []; length = 2 } ∷ [])
unfolding search_tables search_table linear_search take_match
in_tables = refl

search_tables-FoundAmong_example : FoundAmong 110 [] (node ∷ empty_node ∷ []) (method 100 50)
search_tables-FoundAmong_example =
    search_tables-FoundAmong 110 [] 0 (node ∷ empty_node ∷ []) (method 100 50) 0
      (node ∷ record { head = some []; length = 2 } ∷ []) in_tables

nowhere : (m : UnwindRecord) → FoundAmong 999 [] (node ∷ []) m → ⊥
nowhere m (zero, at, holds) = let same : method 0 0 ≡ m = cc in ground (arith, same)
nowhere m (suc i, at, holds) = cc

search_tables-eq-fault_example : search_tables 999 [] 0 (node ∷ []) ≡ fault
search_tables-eq-fault_example = search_tables-eq-fault 999 [] 0 node [] (λ e. cc, tt) nowhere

-- A program with the two methods, and nothing looked up yet.
abbrev fresh : State
fresh = record {
  registry = record { start = methods; start_length = 0; unwind_head = [] };
  cache = empty_cache;
}

abbrev looked_up : Found
looked_up = commit (hash 110) 110 (some (method 100 50)) none (record {
  registry = record { start = methods; start_length = 2; unwind_head = [] };
  cache = empty_cache;
})

fresh_lookup : find_unwind_info 110 none fresh ≡ done looked_up
unfolding find_unwind_info find_in_tables find_cached_unwind_info chain_hit search_registry
    search_tables search_table linear_search take_match hash commit follow_hit
fresh_lookup = refl

find_unwind_info-IsAnswer_example : IsAnswer 110 looked_up
find_unwind_info-IsAnswer_example =
    find_unwind_info-IsAnswer 110 none fresh looked_up empty_cache-IsValid fresh_lookup

find_unwind_info_repeats_example :
    (again : Found) × (find_unwind_info 110 none
        (record (looked_up.2) { registry = fresh.registry })
      ≡ done again)
    × (again.0 ≡ looked_up.0)
find_unwind_info_repeats_example =
    find_unwind_info_repeats 110 none none fresh looked_up fresh.registry (omega arith)
      empty_cache-IsValid fresh_lookup

-- A frame at 512 whose caller has none, with the return address 110.
abbrev stack : Words
stack p = if p == 512 then some 0 else if p == 520 then some 110 else none

one_frame : EndsWithin 1 stack 512
unfolding load_word
one_frame = inr (λ saved e. ground arith)

unwind_stack-ne-stuck_example : unwind_stack 1 stack 7 512 110 0 [] fresh ≢ stuck
unwind_stack-ne-stuck_example = unwind_stack-ne-stuck 1 stack 7 512 110 0 [] fresh one_frame

-- Two class tables, at 1000 and 2000, of which the second is below the first.
abbrev class_words : Words
class_words p = if p == 1024 then some 0 else if p == 2024 then some 1024 else none

class-Ancestors : Ancestors class_words 2000 (2000 ∷ 1000 ∷ [])
unfolding get_super_vtable shift_vtable load_word
class-Ancestors = below (omega arith) refl (below (omega arith) refl root)

catches-contains_example : catches 3 class_words 1000 2000 ≡ done (contains 1000 (2000 ∷ 1000 ∷ []))
catches-contains_example =
    catches-contains 3 class_words 1000 2000 (2000 ∷ 1000 ∷ []) (omega arith) class-Ancestors
      (omega arith)

-- A record that catches an exception, within one that catches a return.
abbrev handlers : Words
handlers p =
    if p == 4000
    then some 2
    else if p == 4024
    then some 5000
    else if p == 5000
    then some 0
    else none

handlers-Leads : Leads handlers 4000 5000 1
unfolding load_word
handlers-Leads = linked (omega arith) refl (omega arith) refl (omega arith) arrived

find_method_handler-Leads_example :
    (find_method_handler 2 handlers 4000 ≡ done 5000) ↔ Catches handlers 2 4000 5000
find_method_handler-Leads_example = find_method_handler-Leads 2 handlers 4000 5000 (omega arith)

find_method_handler_runs : find_method_handler 2 handlers 4000 ≡ done 5000
unfolding load_word
find_method_handler_runs =
    (find_method_handler-Leads 2 handlers 4000 5000 (omega arith)).1
      (1, omega arith, handlers-Leads, refl)

-- A record that catches an exception, and behind it in memory a last one for a finally clause.
abbrev last_finally : Words
last_finally p =
    if p == 4000
    then some 2
    else if p == 4024
    then some 0
    else if p == 4032
    then some 1
    else if p == 4056
    then some 0
    else none

last_finally-Leads : Leads last_finally 4000 4032 1
unfolding load_word
last_finally-Leads = adjacent (omega arith) refl refl arrived

find_method_handler_undefined_example : find_method_handler 2 last_finally 4000 ≡ fault
unfolding load_word
find_method_handler_undefined_example =
    find_method_handler_undefined 2 last_finally 4000 4032 1 1 last_finally-Leads (omega arith) refl
      (omega arith) (omega arith) refl (omega arith)

abbrev line : ℕ → ℕ → LineRecord
line address number = record { address = address; line_number = number }

line_of-between_example : line_of 125 (line 100 7 ∷ line 120 8 ∷ line 140 9 ∷ []) ≡ 8
line_of-between_example =
    line_of-between 125 (line 100 7 ∷ []) (line 120 8) (line 140 9) []
      (omega arith, omega arith, (omega arith, omega arith, (omega arith, omega arith, tt)))
      (omega arith) (omega arith)

line_of-outside_example : line_of 90 (line 100 7 ∷ line 120 8 ∷ []) ≡ 8
line_of-outside_example =
    line_of-outside 90 (line 100 7) [] (line 120 8)
      (omega arith, omega arith, (omega arith, omega arith, tt)) (inl (omega arith)) (omega arith)
