-- ===== src/Jay/Closure/Items.antt =====
-- closure computes the closure of a set of items.
use llc.Common.{ℕ, ◌+◌, ◌≤◌, ◌<◌, ◌≡◌, ◌⊎◌, ◌↔◌, inl, inr, refl, sym, ap, subst, ◌∙◌, arith}
use llc.Common.{
  Bool, true, false, ◌||◌, List, [], ◌∷◌, ◌++◌, length, Among, Among-append, Among-append_left,
  Among-append_right, Bool-cases, leb,
}
use llc.Jay.Grammar.Entries.{symbol-injective}
use llc.Jay.Bits.{
  bit, or_words, word_size, length-or_words, bit-or_words, bit-zeros, zeros, length-zeros,
}
use llc.Jay.Grammar.{Grammar, Entry, symbol, end_of}
use llc.Jay.Closure.First.{IsGrammar, Begins, by_rule}
use llc.Jay.Closure.Leads.{Leads, same, begin}
use llc.Jay.Closure.Rules.{Predicts, predict, first_derives-Predicts, length-first_derives}
use llc.Jay.Closure.Merge.{In, Picks, word_loop-In}
use llc.Jay.Closure.{predict_rules, first_derives, rule_loop, word_loop, closure}

-- The closure of a nucleus: an item before a variable adds the first items of the variable's rules.
pub data InClosure (g : Grammar) (nucleus : List ℕ) : ℕ → Type 0 where
  kernel : {item : ℕ} → Among item nucleus → InClosure g nucleus item
  expand :
      {item a r : ℕ}
      → InClosure g nucleus item
      → g.ritem item ≡ symbol a
      → g.start_symbol ≤ a
      → r < g.nrules
      → g.rlhs r ≡ a
      → InClosure g nucleus (g.rrhs r)

zero_add : (n : ℕ) → 0 + n ≡ n
zero_add n = omega arith

data EntryCase (g : Grammar) (rules : List ℕ) (e : Entry) : Type 0 where
  variable :
      (a : ℕ)
      → e ≡ symbol a
      → g.start_symbol ≤ a
      → predict_rules g rules e ≡ or_words rules (first_derives g a)
      → EntryCase g rules e
  other :
      ((a : ℕ) → e ≡ symbol a → g.start_symbol ≤ a → ⊥)
      → predict_rules g rules e ≡ rules
      → EntryCase g rules e

entry_case : (g : Grammar) (rules : List ℕ) (e : Entry) → EntryCase g rules e
unfolding predict_rules
entry_case g rules (end_of r) = other (λ a e' h. cc) refl
entry_case g rules (symbol s) = elim (Bool-cases (leb g.start_symbol s)) [
  | inl var ↦ variable s refl (ground (arith, var)) (rw var refl)
  | inr token ↦
      other (λ a e' h. let at : s ≡ a = cc in ground (arith, token, at, h)) (rw token refl)
]

or_true_cases : (a b : Bool) → (a || b) ≡ true → (a ≡ true) ⊎ (b ≡ true)
or_true_cases true b e = inl refl
or_true_cases false b e = inr e

or_true_left : (a b : Bool) → a ≡ true → (a || b) ≡ true
or_true_left a b e = rw e refl

or_true_right : (a b : Bool) → b ≡ true → (a || b) ≡ true
or_true_right true b e = refl
or_true_right false b e = e

module _ (g : Grammar) (ok : IsGrammar g) where
  abbrev pub Predicting : ℕ → ℕ → Type 0
  Predicting item r = (a : ℕ) × (g.ritem item ≡ symbol a) × (g.start_symbol ≤ a) × Predicts g a r

  -- The bits after one item.
  item_sound :
      (rules : List ℕ) (item r : ℕ)
      → length rules ≡ word_size g.nrules
      → bit (predict_rules g rules (g.ritem item)) r ≡ true
      → (bit rules r ≡ true) ⊎ Predicting item r
  item_sound rules item r size on = elim (entry_case g rules (g.ritem item)) [
    | variable a e h made ↦
        elim (or_true_cases (bit rules r) (bit (first_derives g a) r) (
          sym (bit-or_words rules (first_derives g a) r (size ∙ sym (length-first_derives g a)))
          ∙ rw made at on)) [
            | inl old ↦ inl old
            | inr new ↦
                inr (a, e, h, (first_derives-Predicts g a ok h (ok.in_range item a e) r).0 new)
          ]
    | other not_var made ↦ inl (rw made at on)
  ]

  item-full :
      (rules : List ℕ) (item r : ℕ)
      → length rules ≡ word_size g.nrules
      → (bit rules r ≡ true) ⊎ Predicting item r
      → bit (predict_rules g rules (g.ritem item)) r ≡ true
  item-full rules item r size m = elim (entry_case g rules (g.ritem item)) [
    | variable a e h made ↦ rw made (
        bit-or_words rules (first_derives g a) r (size ∙ sym (length-first_derives g a)) ∙ elim m [
          | inl old ↦ or_true_left (bit rules r) (bit (first_derives g a) r) old
          | inr (b, e', h', p) ↦
              let at : b ≡ a = symbol-injective (sym e' ∙ e) in
              or_true_right (bit rules r) (bit (first_derives g a) r)
                ((first_derives-Predicts g a ok h (ok.in_range item a e) r).1 (rw at at p))
        ])
    | other not_var made ↦
        rw made (elim m [ inl old ↦ old | inr (b, e', h', p) ↦ absurd (not_var b e' h') ])
  ]

  length-predict_rules :
      (rules : List ℕ) (e : Entry) → length (predict_rules g rules e) ≡ length rules
  length-predict_rules rules e = elim (entry_case g rules e) [
    | variable a at h made ↦ rw made (length-or_words rules (first_derives g a))
    | other not_var made ↦ rw made refl
  ]

  abbrev pub PredictedBy : List ℕ → ℕ → Type 0
  PredictedBy nucleus r = (item : ℕ) × Among item nucleus × Predicting item r

  pub rule_loop_sound :
      (rules nucleus : List ℕ) (r : ℕ)
      → length rules ≡ word_size g.nrules
      → bit (rule_loop g rules nucleus) r ≡ true
      → (bit rules r ≡ true) ⊎ PredictedBy nucleus r
  unfolding rule_loop
  rule_loop_sound rules [] r size on = inl on
  rule_loop_sound rules (item ∷ nucleus) r size on =
      elim (rule_loop_sound (predict_rules g rules (g.ritem item)) nucleus r
        (length-predict_rules rules _ ∙ size) on) [
          | inl here ↦ elim (item_sound rules item r size here) [
            | inl old ↦ inl old
            | inr p ↦ inr (item, inl refl, p)
          ]
          | inr (other_item, m, p) ↦ inr (other_item, inr m, p)
        ]

  rule_loop-full :
      (rules nucleus : List ℕ) (r : ℕ)
      → length rules ≡ word_size g.nrules
      → (bit rules r ≡ true) ⊎ PredictedBy nucleus r
      → bit (rule_loop g rules nucleus) r ≡ true
  unfolding rule_loop
  rule_loop-full rules [] r size (inl on) = on
  rule_loop-full rules [] r size (inr (item, m, p)) = elim m [ ]
  rule_loop-full rules (item ∷ nucleus) r size m =
      rule_loop-full (predict_rules g rules (g.ritem item)) nucleus r
        (length-predict_rules rules _ ∙ size)
        (elim m [
          | inl on ↦ inl (item-full rules item r size (inl on))
          | inr (i, inl here, p) ↦
              inl (item-full rules item r size (inr (subst (λ x. Predicting x r) (sym here) p)))
          | inr (i, inr later, p) ↦ inr (i, later, p)
        ])

  -- From an item before `a`, each variable to which `a` leads is expanded.
  lead_on :
      (nucleus : List ℕ) (a b r : ℕ)
      → Leads g a b
      → ((r' : ℕ) → r' < g.nrules → g.rlhs r' ≡ a → InClosure g nucleus (g.rrhs r'))
      → r < g.nrules
      → g.rlhs r ≡ b
      → InClosure g nucleus (g.rrhs r)
  lead_on nucleus a b r same rules lt e = rules r lt e
  lead_on nucleus a b r (begin {j = c} (by_rule rule small at first h) more) rules lt e =
      lead_on nucleus c b r more (λ r' lt' e'. expand (rules rule small at) first h lt' e') lt e

  abbrev predicted : List ℕ → List ℕ
  predicted nucleus = rule_loop g (zeros (word_size g.nrules)) nucleus

  Picks-InClosure :
      (nucleus : List ℕ) (x : ℕ) → Picks g 0 (predicted nucleus) x → InClosure g nucleus x
  Picks-InClosure nucleus x (r, on, e) =
      elim (rule_loop_sound (zeros (word_size g.nrules)) nucleus r (length-zeros _) on) [
        | inl set ↦
            let clash : false ≡ true = sym (bit-zeros (word_size g.nrules) r) ∙ set in absurd cc
        | inr (item, m, (a, at, h, predict lt lo hi leads)) ↦
            subst (InClosure g nucleus) (ap g.rrhs (sym (zero_add r)) ∙ e) (
              lead_on nucleus a (g.rlhs r) r leads (λ r' lt' e'. expand (kernel m) at h lt' e') lt
                refl)
      ]

  snoc : {a b c : ℕ} → Leads g a b → Begins g b c → Leads g a c
  snoc same b = begin b same
  snoc (begin first more) b = begin first (snoc more b)

  -- An item of the closure is one of the nucleus, or begins a rule that one of these predicts.
  InClosure-cases :
      (nucleus : List ℕ) (x : ℕ)
      → InClosure g nucleus x
      → Among x nucleus ⊎ ((r : ℕ) × PredictedBy nucleus r × (g.rrhs r ≡ x))
  InClosure-cases nucleus x (kernel m) = inl m
  InClosure-cases nucleus x (expand {item = item} {a = a} {r = r} c at h lt e) =
      elim (InClosure-cases nucleus item c) [
        | inl m ↦ inr (
          r,
          (item, m, (a, at, h, predict lt (rw e h) (rw e (ok.in_range item a at)) (rw e same))),
          refl,
        )
        | inr (r', (item', m, (a', at', h', predict lt' lo hi leads)), e') ↦
            let first : g.ritem (g.rrhs r') ≡ symbol a = ap g.ritem e' ∙ at in
            let leads' : Leads g a' (g.rlhs r) = rw e (snoc leads (by_rule r' lt' refl first h)) in
            inr (
              r,
              (item', m, (a', at', h', predict lt (rw e h) (rw e (ok.in_range item a at)) leads')),
              refl,
            )
      ]

  -- The item set that closure leaves holds exactly the items of the closure of the nucleus.
  pub closure-InClosure :
      (nucleus : List ℕ) (x : ℕ) → Among x (closure g nucleus) ↔ InClosure g nucleus x
  unfolding closure
  closure-InClosure nucleus x =
      let merged = word_loop g 0 (predicted nucleus) nucleus in
      let (down, up) = word_loop-In g 0 (predicted nucleus) x nucleus in
      let join : In x merged → Among x (merged.0 ++ merged.1) = λ m. elim m [
        | inl l ↦ Among-append_left x merged.0 merged.1 l
        | inr r ↦ Among-append_right x merged.0 merged.1 r
      ] in
      (
        λ m. elim (down (Among-append x merged.0 merged.1 m)) [
          | inl p ↦ Picks-InClosure nucleus x p
          | inr k ↦ kernel k
        ],
        λ c. elim (InClosure-cases nucleus x c) [
          | inl m ↦ join (up (inr m))
          | inr (r, p, e) ↦ join (
              up (
                inl (
                  r,
                  rule_loop-full (zeros (word_size g.nrules)) nucleus r (length-zeros _) (inr p),
                  ap g.rrhs (zero_add r) ∙ e,
                )))
        ],
      )
