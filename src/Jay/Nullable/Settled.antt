-- ===== src/Jay/Nullable/Settled.antt =====
-- What the last pass of set_nullable has seen: each rule whose symbols are flagged has its left side
-- flagged. And what an earlier pass does: it flags a symbol.
use llc.Common.{ℕ, zero, suc, ◌+◌, ◌≤◌, ◌<◌, ◌≡◌, inl, inr, refl, sym, ap, subst, ◌∙◌, arith}
use llc.Common.{Bool, true, false, ◌&&◌, get_or}
use native.Mathlib.Decide.{ℕ_discrete}
use llc.Jay.Grammar.Entries.{symbol-injective, end_of-injective, symbol-ne-end_of}
use llc.Jay.Grammar.{Grammar, end_of}
use llc.Jay.Nullable.{PassState, pass_entry, pass_loop}
use llc.Jay.Nullable.Rules.{Opens, Flagged, stop, pass_on}
use llc.Jay.Nullable.Pass.{read, found, over, entry_step, pass_loop-done, true_ne_false}

and_true : {a b : Bool} → a ≡ true → b ≡ true → (a && b) ≡ true
and_true ha hb = rw (ha, hb) refl

module _ (g : Grammar) where
  -- The rule at entry `i`, where `empty` is set, and its symbols from `i` on are flagged.
  rule_settled :
      (left i r : ℕ) (s : PassState)
      → g.nitems ≤ i + left
      → (pass_loop g left i s).done ≡ true
      → s.empty ≡ true
      → Flagged g s.nullable r i
      → get_or s.nullable (g.rlhs r) false ≡ true
  unfolding pass_loop
  rule_settled zero i r s le d empty (stop lt e) = absurd (omega arith)
  rule_settled zero i r s le d empty (pass_on x lt e f rest) = absurd (omega arith)
  rule_settled (suc left) i r s le d empty (stop lt e) = elim (entry_step g s (g.ritem i)) [
    | read j e' made ↦ absurd (symbol-ne-end_of (sym e' ∙ e))
    | found r' e' empty' new made ↦
        let t = (pass_loop-done g left (i + 1) (pass_entry g s (g.ritem i)) d).0 in
        absurd (true_ne_false t (ap (λ x. x.done) made))
    | over r' e' old made ↦
        let same : r' ≡ r = end_of-injective (sym e' ∙ e) in rw same at (old empty)
  ]
  rule_settled (suc left) i r s le d empty (pass_on x lt e f rest) =
      let d' : (pass_loop g left (i + 1) (pass_entry g s (g.ritem i))).done ≡ true = d in
      elim (entry_step g s (g.ritem i)) [
        | read j e' made ↦
            let same : j ≡ x = symbol-injective (sym e' ∙ e) in
            let both : (s.empty && get_or s.nullable j false) ≡ true = and_true empty (rw same f) in
            rule_settled left (i + 1) r (record s { empty = s.empty && get_or s.nullable j false })
              (omega arith) (rw made at d') both rest
        | found r' e' empty' new made ↦ absurd (symbol-ne-end_of (sym e ∙ e'))
        | over r' e' old made ↦ absurd (symbol-ne-end_of (sym e ∙ e'))
      ]

  entry_same :
      (s : PassState) (i : ℕ)
      → (pass_entry g s (g.ritem i)).done ≡ true
      → (pass_entry g s (g.ritem i)).nullable ≡ s.nullable
  entry_same s i d = elim (entry_step g s (g.ritem i)) [
    | read j e made ↦ ap (λ x. x.nullable) made
    | found r e empty new made ↦ absurd (true_ne_false d (ap (λ x. x.done) made))
    | over r e old made ↦ ap (λ x. x.nullable) made
  ]

  entry_end :
      (s : PassState) (i r : ℕ) → g.ritem i ≡ end_of r → (pass_entry g s (g.ritem i)).empty ≡ true
  entry_end s i r at = elim (entry_step g s (g.ritem i)) [
    | read j e made ↦ absurd (symbol-ne-end_of (sym e ∙ at))
    | found r' e empty new made ↦ ap (λ x. x.empty) made
    | over r' e old made ↦ ap (λ x. x.empty) made
  ]

  -- A rule behind entry `i`.
  pub later_settled :
      (left i p r : ℕ) (s : PassState)
      → 1 ≤ i
      → i < p
      → g.nitems ≤ i + left
      → (pass_loop g left i s).done ≡ true
      → Opens g p
      → Flagged g s.nullable r p
      → get_or s.nullable (g.rlhs r) false ≡ true
  unfolding pass_loop
  later_settled zero i p r s one lt le d opens (stop in_range e) = absurd (omega arith)
  later_settled zero i p r s one lt le d opens (pass_on x in_range e f rest) = absurd (omega arith)
  later_settled (suc left) i p r s one lt le d opens flagged =
      let s' : PassState = pass_entry g s (g.ritem i) in
      let same : s'.nullable ≡ s.nullable = entry_same s i (pass_loop-done g left (i + 1) s' d).0 in
      let flagged' : Flagged g s'.nullable r p = subst (λ x. Flagged g x r p) (sym same) flagged in
      subst (λ x. get_or x (g.rlhs r) false ≡ true) same
        (elim (ℕ_discrete p (i + 1)) [
          | yes here ↦ elim opens [
            | inl first ↦ absurd (omega arith)
            | inr (q, r', e, one', at) ↦
                let at_i : q ≡ i = omega arith in
                rule_settled left (i + 1) r s' (omega arith) d (entry_end s i r' (rw at_i at at))
                  (rw here at flagged')
          ]
          | no behind ↦
              later_settled left (i + 1) p r s' (omega arith) (omega arith) (omega arith) d opens
                flagged'
        ])

  -- The first rule, or one behind it.
  pub pass_settled :
      (left p r : ℕ) (s : PassState)
      → s.empty ≡ true
      → g.nitems ≤ 1 + left
      → (pass_loop g left 1 s).done ≡ true
      → Opens g p
      → Flagged g s.nullable r p
      → get_or s.nullable (g.rlhs r) false ≡ true
  pass_settled left p r s empty le d (inl first) flagged =
      rule_settled left 1 r s le d empty (rw first at flagged)
  pass_settled left p r s empty le d (inr (q, r', e, one, at)) flagged =
      later_settled left 1 p r s (omega arith) (omega arith) le d (inr (q, r', e, one, at)) flagged
