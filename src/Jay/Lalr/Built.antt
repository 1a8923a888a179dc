-- ===== src/Jay/Lalr/Built.antt =====
-- build_relations as a whole: lookback and includes are the relations of the rules' right sides.
use llc.Common.{
  ℕ, zero, suc, ◌+◌, ◌-◌, ◌≤◌, ◌<◌, ◌≡◌, ◌↔◌, ◌⊎◌, inl, inr, refl, sym, ap, subst, ◌∙◌, arith,
}
use llc.Common.{List, [], ◌∷◌, length, get_or, IfDone, IfDone->>=, IfDone-map, Among}
use native.Mathlib.Decide.{ℕ_discrete}
use llc.Jay.Grammar.{Grammar, derives}
use llc.Jay.Reads.{Scene, symbol_of}
use llc.Jay.Relations.{
  walk_right, add_lookback_edge, walk_left, relate_rules, relate_gotos, set_maxrhs,
}
use llc.Jay.Lalr.Includes.{Spells, Spells_unique, Walked, walk_right-Walked, Behind, Left}
use llc.Jay.Lalr.Relate.{walk_left-Left}
use llc.Jay.Lalr.Lookback.{PlaceOf, Added, add_lookback_edge-Added}

module _ (g : Grammar) (t : Scene) where
  -- Goto `p` is on a variable of the rule's right side, from state `s` on, behind which all derives the
  -- empty string.
  pub record Includes (s rule p : ℕ) : Type 0 where
    pub rest : List ℕ
    pub rq : ℕ
    pub q : ℕ
    pub path : Spells g t (g.rrhs rule) s rest rq q
    pub behind : Behind g t (g.rrhs rule) (length rest) (s ∷ rest) p

  -- `r` is the place of the rule at the state to which its right side leads from state `s`.
  pub record LooksBack (s rule r : ℕ) : Type 0 where
    pub rest : List ℕ
    pub rq : ℕ
    pub q : ℕ
    pub path : Spells g t (g.rrhs rule) s rest rq q
    pub place : PlaceOf t.reducing q rule r

  -- What relate_rules adds for the rules, from state `s` and for goto `i`.
  record Rules (i s : ℕ) (rules : List ℕ) (lookback : List (List ℕ)) (edges : List ℕ)
      (got : List (List ℕ) × List ℕ) : Type 0 where
    size : length got.0 ≡ length lookback
    looks :
        (r p : ℕ)
        → r < length lookback
        → Among p (get_or got.0 r []) ↔ (
            Among p (get_or lookback r [])
            ⊎ ((p ≡ i) × ((rule : ℕ) × Among rule rules × LooksBack s rule r)))
    includes :
        (p : ℕ)
        → Among p got.1 ↔ (Among p edges ⊎ ((rule : ℕ) × Among rule rules × Includes s rule p))

  -- The first rule, and the others.
  Rules-cons :
      (i s rule rq q : ℕ) (rules rest : List ℕ) (lookback added : List (List ℕ))
      (edges later : List ℕ) (got : List (List ℕ) × List ℕ)
      → Spells g t (g.rrhs rule) s rest rq q
      → Added t.reducing q rule i lookback added
      → Left g t (g.rrhs rule) (length rest) (s ∷ rest) edges later
      → Rules i s rules added later got
      → Rules i s (rule ∷ rules) lookback edges got
  Rules-cons i s rule rq q rules rest lookback added edges later got path add left others = record {
    size = others.size ∙ add.size;
    looks = λ r p lt. (
      λ m. elim ((others.looks r p (subst (λ n. r < n) (sym add.size) lt)).0 m) [
        | inr (e, (rule', m', back)) ↦ inr (e, (rule', inr m', back))
        | inl old ↦ elim ((add.each r p lt).0 old) [
          | inl older ↦ inl older
          | inr (e, place) ↦ inr (
            e,
            (rule, inl refl, record { rest = rest; rq = rq; q = q; path = path; place = place }),
          )
        ]
      ],
      λ m.
          let lt' : r < length added = subst (λ n. r < n) (sym add.size) lt in
          elim m [
            | inl older ↦ (others.looks r p lt').1 (inl ((add.each r p lt).1 (inl older)))
            | inr (e, (rule', inr m', back)) ↦ (others.looks r p lt').1 (inr (e, (rule', m', back)))
            | inr (e, (rule', inl same, back)) ↦
                let path' =
                  subst (λ z. Spells g t (g.rrhs z) s back.rest back.rq back.q) (sym same)
                    back.path in
                let (a, b, c) =
                  Spells_unique g t (g.rrhs rule) s back.rq back.q rq q back.rest rest path' path in
                let place =
                  subst (λ z. PlaceOf t.reducing q z r) (sym same)
                    (subst (λ z. PlaceOf t.reducing z rule' r) c back.place) in
                (others.looks r p lt').1 (inl ((add.each r p lt).1 (inr (e, place))))
          ],
    );
    includes = λ p. (
      λ m. elim ((others.includes p).0 m) [
        | inr (rule', m', inc) ↦ inr (rule', inr m', inc)
        | inl old ↦ elim ((left p).0 old) [
          | inl older ↦ inl older
          | inr behind ↦
              inr (
                rule,
                inl refl,
                record { rest = rest; rq = rq; q = q; path = path; behind = behind },
              )
        ]
      ],
      λ m. elim m [
        | inl older ↦ (others.includes p).1 (inl ((left p).1 (inl older)))
        | inr (rule', inr m', inc) ↦ (others.includes p).1 (inr (rule', m', inc))
        | inr (rule', inl same, inc) ↦
            let path' =
              subst (λ z. Spells g t (g.rrhs z) s inc.rest inc.rq inc.q) (sym same) inc.path in
            let (a, b, c) =
              Spells_unique g t (g.rrhs rule) s inc.rq inc.q rq q inc.rest rest path' path in
            let behind =
              subst (λ (xs : List ℕ). Behind g t (g.rrhs rule) (length xs) (s ∷ xs) p) a
                (subst (λ z. Behind g t (g.rrhs z) (length inc.rest) (s ∷ inc.rest) p) (sym same)
                  inc.behind) in
            (others.includes p).1 (inl ((left p).1 (inr behind)))
      ],
    );
  }

  relate_rules-Rules :
      (i s : ℕ) (rules : List ℕ) (lookback : List (List ℕ)) (edges : List ℕ)
      → IfDone (relate_rules g t i s rules lookback edges) (Rules i s rules lookback edges)
  unfolding relate_rules
  relate_rules-Rules i s [] lookback edges = record {
    size = refl;
    looks = λ r p lt. (
      λ m. inl m,
      λ m. elim m [ inl old ↦ old | inr (e, (rule, none_left, back)) ↦ elim none_left [ ] ],
    );
    includes = λ p. (
      λ m. inl m,
      λ m. elim m [ inl old ↦ old | inr (rule, none_left, inc) ↦ elim none_left [ ] ],
    );
  }
  relate_rules-Rules i s (rule ∷ rules) lookback edges =
      let P = Rules i s (rule ∷ rules) lookback edges in
      IfDone->>= (walk_right g t (set_maxrhs g) (g.nitems + 1) (g.rrhs rule) s (s ∷ [])) _
        (Walked g t (g.rrhs rule) s (s ∷ [])) P
        (walk_right-Walked g t (set_maxrhs g) (g.nitems + 1) (g.rrhs rule) s (s ∷ []))
        (λ (rq, q, states) (rest, all, path, len).
          IfDone->>= (add_lookback_edge t.reducing q rule i lookback) _
            (Added t.reducing q rule i lookback) P
            (add_lookback_edge-Added t.reducing q rule i lookback)
            (λ added add.
              let count : length states - 1 ≡ length rest = omega (arith, ap length all) in
              let walked : IfDone (walk_left g t states (length states - 1) rq edges)
                  (Left g t (g.rrhs rule) (length rest) (s ∷ rest) edges) =
                subst
                  (λ (xs : List ℕ).
                    IfDone (walk_left g t xs (length states - 1) rq edges)
                      (Left g t (g.rrhs rule) (length rest) (s ∷ rest) edges))
                  (sym all)
                  (subst
                    (λ z.
                      IfDone (walk_left g t (s ∷ rest) z rq edges)
                        (Left g t (g.rrhs rule) (length rest) (s ∷ rest) edges))
                    (sym count)
                    (subst
                      (λ z.
                        IfDone (walk_left g t (s ∷ rest) (length rest) z edges)
                          (Left g t (g.rrhs rule) (length rest) (s ∷ rest) edges))
                      (sym len)
                      (walk_left-Left g t (s ∷ rest) (g.rrhs rule) (length rest) edges))) in
              IfDone->>= (walk_left g t states (length states - 1) rq edges) _
                (Left g t (g.rrhs rule) (length rest) (s ∷ rest) edges) P walked
                (λ later left.
                  IfDone-map (relate_rules g t i s rules added later) (Rules i s rules added later)
                    P
                    (λ got others.
                      Rules-cons i s rule rq q rules rest lookback added edges later got path add
                        left others)
                    (relate_rules-Rules i s rules added later))))

  -- The state that a goto leaves, and the rules of its symbol.
  abbrev pub from_of : ℕ → ℕ
  from_of v = get_or t.gotos.from_state v 0

  abbrev pub rules_at : ℕ → List ℕ
  rules_at v = derives g (symbol_of t (get_or t.gotos.to_state v 0))

  -- What relate_gotos leaves for `left` gotos from goto `i` on.
  pub record Built (left i : ℕ) (lookback : List (List ℕ)) (got : List (List ℕ) × List (List ℕ))
      : Type 0 where
    pub size : length got.0 ≡ length lookback
    pub looks :
        (r p : ℕ)
        → r < length lookback
        → Among p (get_or got.0 r []) ↔ (
            Among p (get_or lookback r [])
            ⊎ ((i ≤ p)
                × (p < i + left)
                × ((rule : ℕ) × Among rule (rules_at p) × LooksBack (from_of p) rule r)))
    pub includes :
        (v p : ℕ)
        → v < left
        → Among p (get_or got.1 v [])
          ↔ ((rule : ℕ) × Among rule (rules_at (i + v)) × Includes (from_of (i + v)) rule p)

  Built-cons :
      (left i : ℕ) (lookback later : List (List ℕ)) (edges : List ℕ)
      (got : List (List ℕ) × List (List ℕ))
      → Rules i (from_of i) (rules_at i) lookback [] (later, edges)
      → Built left (i + 1) later got
      → Built (suc left) i lookback (got.0, edges ∷ got.1)
  Built-cons left i lookback later edges got now rest = record {
    size = rest.size ∙ now.size;
    looks = λ r p lt.
        let lt' : r < length later = subst (λ n. r < n) (sym now.size) lt in
        (
          λ m. elim ((rest.looks r p lt').0 m) [
            | inr (lo, hi, back) ↦ inr (omega arith, omega arith, back)
            | inl old ↦ elim ((now.looks r p lt).0 old) [
              | inl older ↦ inl older
              | inr (e, back) ↦ inr (
                omega arith,
                omega arith,
                subst (λ z. (rule : ℕ) × Among rule (rules_at z) × LooksBack (from_of z) rule r)
                    (sym e) back,
              )
            ]
          ],
          λ m. elim m [
            | inl older ↦ (rest.looks r p lt').1 (inl ((now.looks r p lt).1 (inl older)))
            | inr (lo, hi, back) ↦ elim (ℕ_discrete p i) [
              | yes e ↦ (rest.looks r p lt').1 (
                  inl (
                    (now.looks r p lt).1 (
                      inr (
                        e,
                        subst
                            (λ z.
                              (rule : ℕ) × Among rule (rules_at z) × LooksBack (from_of z) rule r)
                            e back,
                      ))))
              | no ne ↦ (rest.looks r p lt').1 (inr (omega arith, omega arith, back))
            ]
          ],
        );
    includes = each;
  }
    where
      first_turn :
          (p : ℕ)
          → Among p edges ↔ ((rule : ℕ) × Among rule (rules_at i) × Includes (from_of i) rule p)
      first_turn p = (
        λ m. elim ((now.includes p).0 m) [ inl nothing ↦ elim nothing [ ] | inr inc ↦ inc ],
        λ inc. (now.includes p).1 (inr inc),
      )

      each :
          (v p : ℕ)
          → v < suc left
          → Among p (get_or (edges ∷ got.1) v [])
            ↔ ((rule : ℕ) × Among rule (rules_at (i + v)) × Includes (from_of (i + v)) rule p)
      each zero p lt =
          let e : i ≡ i + 0 = omega arith in
          subst
            (λ z.
              Among p edges ↔ ((rule : ℕ) × Among rule (rules_at z) × Includes (from_of z) rule p))
            e (first_turn p)
      each (suc v) p lt =
          let e : i + 1 + v ≡ i + suc v = omega arith in
          subst
            (λ z.
              Among p (get_or got.1 v [])
              ↔ ((rule : ℕ) × Among rule (rules_at z) × Includes (from_of z) rule p))
            e (rest.includes v p (omega arith))

  pub relate_gotos-Built :
      (left i : ℕ) (lookback : List (List ℕ))
      → IfDone (relate_gotos g t left i lookback) (Built left i lookback)
  unfolding relate_gotos
  relate_gotos-Built zero i lookback = record {
    size = refl;
    looks = λ r p lt.
        (λ m. inl m, λ m. elim m [ inl old ↦ old | inr (lo, hi, back) ↦ absurd (omega arith) ]);
    includes = λ v p lt. absurd (omega arith);
  }
  relate_gotos-Built (suc left) i lookback =
      IfDone->>= (relate_rules g t i (from_of i) (rules_at i) lookback []) _
        (Rules i (from_of i) (rules_at i) lookback []) (Built (suc left) i lookback)
        (relate_rules-Rules i (from_of i) (rules_at i) lookback [])
        (λ (later, edges) now.
          IfDone->>= (relate_gotos g t left (i + 1) later) _ (Built left (i + 1) later)
            (Built (suc left) i lookback) (relate_gotos-Built left (i + 1) later)
            (λ got rest. Built-cons left i lookback later edges got now rest))
