-- ===== src/Jay/Lalr/Lookback.antt =====
-- add_lookback_edge, and what the loops of build_relations leave in lookback and in includes.
use llc.Common.{
  ℕ, zero, suc, ◌+◌, ◌-◌, ◌≤◌, ◌<◌, ◌≡◌, ◌≢◌, ◌↔◌, ◌⊎◌, inl, inr, sym, subst, ◌∙◌, arith,
}
use llc.Common.{
  none, some, List, [], ◌∷◌, length, length-set, get_or, get_or-set_self, get_or-set_ne, set, done,
  abort, IfDone, Option-cases, Among,
}
use native.Mathlib.Decide.{ℕ_discrete, dec_lt}
use llc.Jay.Reads.{Reducing}
use llc.Jay.Relations.{find_rule, add_lookback_edge}

-- `r` is the first of state `q`'s places in LAruleno that has the rule.
pub record PlaceOf (la : Reducing) (q rule r : ℕ) : Type 0 where
  pub low : get_or la.lookaheads q 0 ≤ r
  pub high : r < get_or la.lookaheads (q + 1) 0
  pub is_rule : get_or la.la_ruleno r 0 ≡ rule
  pub earliest : (j : ℕ) → get_or la.lookaheads q 0 ≤ j → j < r → get_or la.la_ruleno j 0 ≢ rule

PlaceOf_unique :
    (la : Reducing) (q rule r r' : ℕ) → PlaceOf la q rule r → PlaceOf la q rule r' → r ≡ r'
PlaceOf_unique la q rule r r' p p' = elim (dec_lt r r') [
  | yes lt ↦ absurd (p'.earliest r p.low lt p.is_rule)
  | no ge ↦ elim (dec_lt r' r) [
    | yes lt ↦ absurd (p.earliest r' p'.low lt p'.is_rule)
    | no le ↦ omega arith
  ]
]

find_rule-step :
    (la_ruleno : List ℕ) (rule left i : ℕ)
    → get_or la_ruleno i 0 ≢ rule
    → find_rule la_ruleno rule (suc left) i ≡ find_rule la_ruleno rule left (i + 1)
unfolding find_rule
find_rule-step la_ruleno rule left i ne = ground (arith, ne)

find_rule-hit :
    (la_ruleno : List ℕ) (rule left i : ℕ)
    → get_or la_ruleno i 0 ≡ rule
    → find_rule la_ruleno rule (suc left) i ≡ some i
unfolding find_rule
find_rule-hit la_ruleno rule left i e = ground (arith, e)

find_rule_lem :
    (la_ruleno : List ℕ) (rule left i r : ℕ)
    → find_rule la_ruleno rule left i ≡ some r
    → (i ≤ r)
      × (r < i + left)
      × (get_or la_ruleno r 0 ≡ rule)
      × ((j : ℕ) → i ≤ j → j < r → get_or la_ruleno j 0 ≢ rule)
find_rule_lem la_ruleno rule zero i r e = absurd (unfold find_rule in cc (e))
find_rule_lem la_ruleno rule (suc left) i r e = elim (ℕ_discrete (get_or la_ruleno i 0) rule) [
  | yes here ↦
      let same : i ≡ r = cc (find_rule-hit la_ruleno rule left i here, e) in
      (
        omega arith,
        omega arith,
        subst (λ z. get_or la_ruleno z 0 ≡ rule) same here,
        λ j lo hi. absurd (omega arith),
      )
  | no ne ↦
      let (lo, hi, is_rule, earlier) =
        find_rule_lem la_ruleno rule left (i + 1) r
          (sym (find_rule-step la_ruleno rule left i ne) ∙ e) in
      (
        omega arith,
        omega arith,
        is_rule,
        λ j le lt. elim (ℕ_discrete i j) [
          | yes same ↦ subst (λ z. get_or la_ruleno z 0 ≢ rule) same ne
          | no apart ↦ earlier j (omega arith) lt
        ],
      )
]

add_lookback_edge-some :
    (la : Reducing) (q rule i p : ℕ) (lookback : List (List ℕ))
    → find_rule la.la_ruleno rule
        (get_or la.lookaheads (q + 1) 0 - get_or la.lookaheads q 0)
        (get_or la.lookaheads q 0)
      ≡ some p
    → add_lookback_edge la q rule i lookback ≡ done (set lookback p (i ∷ get_or lookback p []))
unfolding add_lookback_edge
add_lookback_edge-some la q rule i p lookback e = ground (arith, e)

add_lookback_edge-none :
    (la : Reducing) (q rule i : ℕ) (lookback : List (List ℕ))
    → find_rule la.la_ruleno rule
        (get_or la.lookaheads (q + 1) 0 - get_or la.lookaheads q 0)
        (get_or la.lookaheads q 0)
      ≡ none
    → add_lookback_edge la q rule i lookback ≡ abort
unfolding add_lookback_edge
add_lookback_edge-none la q rule i lookback e = ground (arith, e)

-- The lists of lookback have the goto `i` too at the place of the rule.
pub record Added (la : Reducing) (q rule i : ℕ) (lookback later : List (List ℕ)) : Type 0 where
  pub size : length later ≡ length lookback
  pub each :
      (r p : ℕ)
      → r < length lookback
      → Among p (get_or later r [])
        ↔ (Among p (get_or lookback r []) ⊎ ((p ≡ i) × PlaceOf la q rule r))

pub add_lookback_edge-Added :
    (la : Reducing) (q rule i : ℕ) (lookback : List (List ℕ))
    → IfDone (add_lookback_edge la q rule i lookback) (Added la q rule i lookback)
add_lookback_edge-Added la q rule i lookback =
    let lo = get_or la.lookaheads q 0 in
    let hi = get_or la.lookaheads (q + 1) 0 in
    elim (Option-cases (find_rule la.la_ruleno rule (hi - lo) lo)) [
      | inl e ↦
          subst (λ m. IfDone m (Added la q rule i lookback))
            (sym (add_lookback_edge-none la q rule i lookback e)) tt
      | inr (k, e) ↦
          let (low, high, is_rule, earliest) = find_rule_lem la.la_ruleno rule (hi - lo) lo k e in
          let place : PlaceOf la q rule k = record {
            low = low;
            high = omega arith;
            is_rule = is_rule;
            earliest = earliest;
          } in
          let list = i ∷ get_or lookback k [] in
          subst (λ m. IfDone m (Added la q rule i lookback))
            (sym (add_lookback_edge-some la q rule i k lookback e))
            (record {
              size = length-set lookback k list;
              each = λ r p lt. elim (ℕ_discrete k r) [
                | no ne ↦
                    subst
                      (λ xs.
                        Among p xs
                        ↔ (Among p (get_or lookback r []) ⊎ ((p ≡ i) × PlaceOf la q rule r)))
                      (sym (get_or-set_ne lookback k r list [] ne))
                      (
                        λ m. inl m,
                        λ m. elim m [
                          | inl old ↦ old
                          | inr (e', other) ↦ absurd (ne (PlaceOf_unique la q rule k r place other))
                        ],
                      )
                | yes same ↦
                    subst
                      (λ z.
                        Among p (get_or (set lookback k list) z [])
                        ↔ (Among p (get_or lookback z []) ⊎ ((p ≡ i) × PlaceOf la q rule z)))
                      same
                      (subst
                        (λ xs.
                          Among p xs
                          ↔ (Among p (get_or lookback k []) ⊎ ((p ≡ i) × PlaceOf la q rule k)))
                        (sym (get_or-set_self lookback k list [] (omega arith)))
                        (
                          λ m. elim m [ inl is_i ↦ inr (sym is_i, place) | inr old ↦ inl old ],
                          λ m. elim m [ inl old ↦ inr old | inr (is_i, at) ↦ inl (sym is_i) ],
                        ))
              ];
            })
    ]
