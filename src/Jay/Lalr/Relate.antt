-- ===== src/Jay/Lalr/Relate.antt =====
-- The loops of build_relations make the relations of Includes.
use llc.Common.{ℕ, zero, suc, ◌+◌, ◌-◌, ◌≤◌, ◌≡◌, ◌↔◌, ◌⊎◌, inl, inr, sym, ap, subst, ◌∙◌, arith}
use llc.Common.{
  false, ◌&&◌, List, [], ◌∷◌, ◌++◌, get_or, IfDone, IfDone->>=, IfDone-if, IfDone-map, Bool-cases,
  ltb, both_true, Among, Among-append, Among-append_left, Among-append_right,
}
use native.Mathlib.Decide.{dec_lt}
use llc.Jay.Grammar.{Grammar, Entry, symbol, is_var}
use llc.Jay.Grammar.Entries.{symbol-injective, symbol-ne-end_of}
use llc.Jay.Reads.{Scene}
use llc.Jay.Relations.{walk_left}
use llc.Jay.Lr0.Itemsets.{entry_case}
use llc.Jay.Lalr.Includes.{
  Behind, Left, pushed, Pushed, pushed-Pushed, walk_left-end, walk_left-token, walk_left-stop,
  walk_left-on, absent-Behind, last_or_before, last-Behind, before-Behind,
}

module _ (g : Grammar) (t : Scene) where
  Among-snoc : (p q : ℕ) (xs : List ℕ) → Among p (xs ++ q ∷ []) ↔ (Among p xs ⊎ (p ≡ q))
  Among-snoc p q xs = (
    λ m. elim (Among-append p xs (q ∷ []) m) [
      | inl old ↦ inl old
      | inr (inl e) ↦ inr (sym e)
      | inr (inr m') ↦ elim m' [ ]
    ],
    λ m. elim m [
      | inl old ↦ Among-append_left p xs (q ∷ []) old
      | inr e ↦ Among-append_right p xs (q ∷ []) (inl (sym e))
    ],
  )

  -- Nothing is added where the last entry is no variable.
  unchanged :
      (states : List ℕ) (from len : ℕ) (edges : List ℕ)
      → ((y : ℕ) → g.ritem (from + len) ≡ symbol y → g.start_symbol ≤ y → ⊥)
      → Left g t from (suc len) states edges edges
  unchanged states from len edges no_var p = (
    λ m. inl m,
    λ m. elim m [ inl old ↦ old | inr b ↦ absurd (absent-Behind g t from len p states no_var b) ],
  )

  on_start : (from len : ℕ) → from + suc len - 1 ≡ from + len
  on_start from len = omega arith

  pub walk_left-Left :
      (states : List ℕ) (from len : ℕ) (edges : List ℕ)
      → IfDone (walk_left g t states len (from + len) edges) (Left g t from len states edges)
  walk_left-Left states from zero edges =
      unfold walk_left in
      IfDone-if (is_var g (g.ritem (from + 0 - 1))) _ _ (Left g t from 0 states edges) tt (λ p.
        (λ m. inl m, λ m. elim m [ inl old ↦ old | inr b ↦ absurd (let lt = b.2 in omega arith) ]))
  walk_left-Left states from (suc len) edges =
      let rp = from + suc len in
      let P = Left g t from (suc len) states edges in
      let back : (e : Entry) → g.ritem (from + len) ≡ e → g.ritem (rp - 1) ≡ e =
        λ e h. ap (λ z. g.ritem z) (on_start from len) ∙ h in
      elim (entry_case (g.ritem (from + len))) [
        | inr (r, e) ↦
            subst (λ m. IfDone m P) (sym (walk_left-end g t states len rp r edges (back _ e)))
              (unchanged states from len edges (λ y at var. absurd (symbol-ne-end_of (sym at ∙ e))))
        | inl (s, e) ↦ elim (dec_lt s g.start_symbol) [
          | yes token ↦
              subst (λ m. IfDone m P)
                (sym (walk_left-token g t states len rp s edges (back _ e) token))
                (unchanged states from len edges
                  (λ y at var. let same : y ≡ s = symbol-injective (sym at ∙ e) in omega arith))
          | no variable ↦
              let var : g.start_symbol ≤ s = omega arith in
              elim (Bool-cases (get_or t.nullable s false && ltb 0 len)) [
                | inr off ↦
                    subst (λ m. IfDone m P)
                      (sym (walk_left-stop g t states len rp s edges (back _ e) var off))
                      (IfDone-map (pushed g t states len s edges) (Pushed g t states len s edges) P
                        (λ later (q, goto, same) p.
                          subst
                            (λ xs.
                              Among p xs ↔ (Among p edges ⊎ Behind g t from (suc len) states p))
                            (sym same)
                            (
                              λ m. elim ((Among-snoc p q edges).0 m) [
                                | inl old ↦ inl old
                                | inr is_q ↦ inr (
                                    subst (λ z. Behind g t from (suc len) states z) (sym is_q)
                                      (last-Behind g t from len s q states e var goto))
                              ],
                              λ m. elim m [
                                | inl old ↦ (Among-snoc p q edges).1 (inl old)
                                | inr b ↦ elim (last_or_before g t from len p s q states e goto b) [
                                  | inl is_q ↦ (Among-snoc p q edges).1 (inr is_q)
                                  | inr (b', n, lt) ↦ absurd (ground (arith, off, n, lt))
                                ]
                              ],
                            ))
                        (pushed-Pushed g t states len s edges))
                | inl on ↦
                    let (n, some_left) = both_true (get_or t.nullable s false) (ltb 0 len) on in
                    let lower : (xs : List ℕ)
                        → IfDone (walk_left g t states len (rp - 1) xs)
                            (Left g t from len states xs) =
                      λ xs.
                        subst
                          (λ z.
                            IfDone (walk_left g t states len z xs) (Left g t from len states xs))
                          (sym (on_start from len)) (walk_left-Left states from len xs) in
                    subst (λ m. IfDone m P)
                      (sym (walk_left-on g t states len rp s edges (back _ e) var on))
                      (IfDone->>= (pushed g t states len s edges) _ (Pushed g t states len s edges)
                        P (pushed-Pushed g t states len s edges)
                        (λ later (q, goto, same).
                          IfDone-map (walk_left g t states len (rp - 1) later)
                            (Left g t from len states later) P
                            (λ last all p. (
                              λ m. elim ((all p).0 m) [
                                | inr b ↦ inr (before-Behind g t from len s p states e var n b)
                                | inl m' ↦
                                    elim ((Among-snoc p q edges).0
                                      (subst (λ xs. Among p xs) same m')) [
                                        | inl old ↦ inl old
                                        | inr is_q ↦ inr (
                                            subst (λ z. Behind g t from (suc len) states z)
                                              (sym is_q)
                                              (last-Behind g t from len s q states e var goto))
                                      ]
                              ],
                              λ m. elim m [
                                | inl old ↦ (all p).1 (
                                    inl (
                                      subst (λ xs. Among p xs) (sym same)
                                        ((Among-snoc p q edges).1 (inl old))))
                                | inr b ↦ elim (last_or_before g t from len p s q states e goto b) [
                                  | inl is_q ↦ (all p).1 (
                                      inl (
                                        subst (λ xs. Among p xs) (sym same)
                                          ((Among-snoc p q edges).1 (inr is_q))))
                                  | inr (b', n', lt) ↦ (all p).1 (inr b')
                                ]
                              ],
                            ))
                            (lower later)))
              ]
        ]
      ]
