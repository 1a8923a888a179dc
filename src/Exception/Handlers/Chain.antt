-- ===== src/Exception/Handlers/Chain.antt =====
-- What the search of the handler chain finds.
use llc.Common.{ℕ, zero, suc, ◌+◌, ◌<◌, ◌≡◌, ◌≢◌, ◌↔◌, ◌⊎◌, inl, inr, ap, subst, ◌∙◌, arith}
use llc.Common.{done, fault, >>=-eq-done, Bool-cases, ◌==◌, ==_ne}
use native.Mathlib.Decide.{ℕ_discrete}
use llc.Exception.Words.{Words, load_word}
use llc.Exception.Handlers.{catch_return, catch_exception, next_ex_record, find_method_handler}

-- From a record the chain leads over `steps` records that do not catch a return: to the one at `next`,
-- or to the one behind a record that catches an exception, where `next` is null.
pub data Leads (m : Words) : ℕ → ℕ → ℕ → Type 0 where
  arrived : {r : ℕ} → Leads m r r 0
  linked :
      {r next h type steps : ℕ}
      → r ≢ 0
      → load_word m r ≡ done type
      → type ≢ catch_return
      → load_word m (r + 24) ≡ done next
      → next ≢ 0
      → Leads m next h steps
      → Leads m r h (suc steps)
  adjacent :
      {r h steps : ℕ}
      → r ≢ 0
      → load_word m r ≡ done catch_exception
      → load_word m (r + 24) ≡ done 0
      → Leads m (r + 32) h steps
      → Leads m r h (suc steps)

next_linked :
    (m : Words) (r next : ℕ)
    → load_word m (r + 24) ≡ done next
    → next ≢ 0
    → next_ex_record m r ≡ done next
unfolding next_ex_record
next_linked m r next e ne = ground (arith, e, ne)

next_adjacent :
    (m : Words) (r : ℕ)
    → load_word m r ≡ done catch_exception
    → load_word m (r + 24) ≡ done 0
    → next_ex_record m r ≡ done (r + 32)
unfolding next_ex_record
next_adjacent m r is_exception e = ground (arith, is_exception, e)

next_missing :
    (m : Words) (r type : ℕ)
    → load_word m r ≡ done type
    → type ≢ catch_exception
    → load_word m (r + 24) ≡ done 0
    → next_ex_record m r ≡ fault
unfolding next_ex_record
next_missing m r type loaded other e = ground (arith, loaded, other, e)

find_method_handler_reaches :
    (fuel : ℕ) (m : Words) (r h steps : ℕ)
    → Leads m r h steps
    → h ≢ 0
    → load_word m h ≡ done catch_return
    → steps < fuel
    → find_method_handler fuel m r ≡ done h
unfolding find_method_handler
find_method_handler_reaches zero m r h steps path used found lt = absurd (omega arith)
find_method_handler_reaches (suc fuel) m r h zero arrived used found lt = ground (arith, found)
find_method_handler_reaches (suc fuel) m r h (suc steps)
      (linked {next = next} used' type other e ne path) used found lt =
    ground (
      arith,
      type,
      next_linked m r next e ne,
      find_method_handler_reaches fuel m next h steps path used found,
    )
find_method_handler_reaches (suc fuel) m r h (suc steps) (adjacent used' type e path) used found
      lt =
    ground (
      arith,
      type,
      next_adjacent m r type e,
      find_method_handler_reaches fuel m (r + 32) h steps path used found,
    )

next_cases :
    (m : Words) (r r' : ℕ)
    → next_ex_record m r ≡ done r'
    → ((load_word m (r + 24) ≡ done r') × (r' ≢ 0))
      ⊎ ((load_word m (r + 24) ≡ done 0) × (load_word m r ≡ done catch_exception) × (r' ≡ r + 32))
unfolding next_ex_record
next_cases m r r' e =
    let (next, loaded, e') = >>=-eq-done (load_word m (r + 24)) _ e in
    elim (Bool-cases (next == 0)) [
      | inr some_next ↦
          let same : next ≡ r' = ground (arith, e', some_next) in
          inl (loaded ∙ ap (λ (z : ℕ). done z) same, λ null. ground (arith, some_next, same, null))
      | inl null ↦
          let (type, loaded', e'') = >>=-eq-done (load_word m r) _ (rw null at e') in
          elim (Bool-cases (type == catch_exception)) [
            | inl is_exception ↦ inr (
              loaded ∙ ap (λ (z : ℕ). done z) (ground (arith, null)),
              loaded' ∙ ap (λ (z : ℕ). done z) (ground (arith, is_exception)),
              ground (arith, e'', is_exception),
            )
            | inr other ↦ absurd (ground (arith, e'', other))
          ]
    ]

-- The chain leads from `r` to a record at `h` that catches a return, over fewer than `n` others.
abbrev pub Catches : Words → ℕ → ℕ → ℕ → Type 0
Catches m n r h =
    (steps : ℕ) × (steps < n) × Leads m r h steps × (load_word m h ≡ done catch_return)

find_method_handler_sound :
    (fuel : ℕ) (m : Words) (r h : ℕ)
    → h ≢ 0
    → find_method_handler fuel m r ≡ done h
    → Catches m fuel r h
unfolding find_method_handler
find_method_handler_sound zero m r h used e = absurd (ground (arith, e, used))
find_method_handler_sound (suc fuel) m r h used e = elim (ℕ_discrete r 0) [
  | yes null ↦ absurd (ground (arith, e, used, null))
  | no used' ↦
      let (type, loaded, e₁) =
        >>=-eq-done (load_word m r) _ (rw (find_method_handler, ==_ne r 0 used') at e) in
      elim (Bool-cases (type == catch_return)) [
        | inl returns ↦
            let same : r ≡ h = ground (arith, e₁, returns) in
            (
              0,
              omega arith,
              subst (λ z. Leads m r z 0) same arrived,
              subst (λ z. load_word m z ≡ done catch_return) same
                  (loaded ∙ ap (λ (z : ℕ). done z) (ground (arith, returns))),
            )
        | inr other ↦
            let (r', next, e₂) = >>=-eq-done (next_ex_record m r) _ (rw other at e₁) in
            let (steps, lt, path, returns) = find_method_handler_sound fuel m r' h used e₂ in
            elim (next_cases m r r' next) [
              | inl (link, some_next) ↦ (
                suc steps,
                omega arith,
                linked used' loaded (λ is_return. ground (arith, other, is_return)) link some_next
                    path,
                returns,
              )
              | inr (null, is_exception, beside) ↦ (
                suc steps,
                omega arith,
                adjacent used' is_exception null (subst (λ z. Leads m z h steps) beside path),
                returns,
              )
            ]
      ]
]

-- With fuel `n` a record is found exactly if it catches a return and the chain leads to it over fewer
-- than `n` records that do not.
pub find_method_handler-Leads :
    (n : ℕ) (m : Words) (r h : ℕ) → h ≢ 0 → (find_method_handler n m r ≡ done h) ↔ Catches m n r h
find_method_handler-Leads n m r h used = (
  find_method_handler_sound n m r h used,
  λ (steps, lt, path, returns). find_method_handler_reaches n m r h steps path used returns lt,
)

-- Where the chain leads over records that do not catch a return to a last one, which catches neither a
-- return nor an exception and whose `next` is null, the search ends in undefined behaviour.
pub find_method_handler_undefined :
    (fuel : ℕ) (m : Words) (r h steps type : ℕ)
    → Leads m r h steps
    → h ≢ 0
    → load_word m h ≡ done type
    → type ≢ catch_return
    → type ≢ catch_exception
    → load_word m (h + 24) ≡ done 0
    → steps < fuel
    → find_method_handler fuel m r ≡ fault
unfolding find_method_handler
find_method_handler_undefined zero m r h steps type path used found a b last lt =
    absurd (omega arith)
find_method_handler_undefined (suc fuel) m r h zero type arrived used found a b last lt =
    ground (arith, found, next_missing m r type found b last)
find_method_handler_undefined (suc fuel) m r h (suc steps) type
      (linked {next = next} used' loaded other e ne path) used found a b last lt =
    ground (
      arith,
      loaded,
      next_linked m r next e ne,
      find_method_handler_undefined fuel m next h steps type path used found a b last,
    )
find_method_handler_undefined (suc fuel) m r h (suc steps) type (adjacent used' loaded e path) used
      found a b last lt =
    ground (
      arith,
      loaded,
      next_adjacent m r loaded e,
      find_method_handler_undefined fuel m (r + 32) h steps type path used found a b last,
    )
