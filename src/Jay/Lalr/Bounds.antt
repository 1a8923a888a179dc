-- ===== src/Jay/Lalr/Bounds.antt =====
-- The passes of jay/lalr.c before digraph list gotos only.
use llc.Common.{ℕ, zero, suc, ◌+◌, ◌-◌, ◌<◌, ◌≡◌, inl, inr, refl, ap, subst, ◌∙◌, arith}
use llc.Common.{
  false, ◌&&◌, none, List, [], ◌∷◌, length, get_or, get_or-set_self, get_or-set_ne, set, Run, done,
  abort, ◌>>=◌, IfDone, IfDone->>=, IfDone-if, IfDone-any, IfDone-of, IfDone-option, Bool-cases,
  leb, ltb, Among, Among-append, set_out,
}
use native.Mathlib.Decide.{ℕ_discrete, dec_lt}
use llc.Jay.Bits.{word_size, zeros, length-zeros, set_bit, length-set_bit}
use llc.Jay.Warshall.{Matrix}
use llc.Jay.Warshall.Round.{AllSized}
use llc.Jay.Grammar.{Grammar, Entry, symbol, end_of, is_var, derives}
use llc.Jay.Gotos.{map_goto}
use llc.Jay.Gotos.Sizes.{map_goto-lt}
use llc.Jay.Reads.{Scene, symbol_of, token_bits, read_edges, read_goto, reads_loop}
use llc.Jay.Relations.{
  walk_right, add_lookback_edge, find_rule, push_edge, walk_left, relate_rules, relate_gotos,
  set_maxrhs,
}

abbrev pub AllUnder : ℕ → List ℕ → Type 0
AllUnder n xs = (p : ℕ) → Among p xs → p < n

abbrev pub EachUnder : ℕ → List (List ℕ) → Type 0
EachUnder n rows = (i p : ℕ) → Among p (get_or rows i []) → p < n

AllUnder-cons : (n p : ℕ) (xs : List ℕ) → p < n → AllUnder n xs → AllUnder n (p ∷ xs)
AllUnder-cons n p xs lt under q (inl e) = omega (arith, e, lt)
AllUnder-cons n p xs lt under q (inr m) = under q m

EachUnder-cons :
    (n : ℕ) (xs : List ℕ) (rows : List (List ℕ))
    → AllUnder n xs
    → EachUnder n rows
    → EachUnder n (xs ∷ rows)
EachUnder-cons n xs rows under each zero p m = under p m
EachUnder-cons n xs rows under each (suc i) p m = each i p m

EachUnder-set :
    (n i : ℕ) (xs : List ℕ) (rows : List (List ℕ))
    → AllUnder n xs
    → EachUnder n rows
    → EachUnder n (set rows i xs)
EachUnder-set n i xs rows under each k p m = elim (ℕ_discrete i k) [
  | no ne ↦ each k p (subst (λ ys. Among p ys) (get_or-set_ne rows i k xs [] ne) m)
  | yes same ↦ elim (dec_lt k (length rows)) [
    | yes lt ↦ under p (
        subst (λ ys. Among p ys) (get_or-set_self rows k xs [] lt)
          (subst (λ j. Among p (get_or (set rows j xs) k [])) same m))
    | no out ↦
        each k p
          (subst (λ ys. Among p (get_or ys k [])) (set_out rows i xs (omega (arith, same))) m)
  ]
]

IfDone-entry {ℓ} :
    {A : Type ℓ} (e : Entry) (ends : ℕ → Run A) (goes : ℕ → Run A) (P : A → Type 0)
    → ((r : ℕ) → IfDone (ends r) P)
    → ((s : ℕ) → IfDone (goes s) P)
    → IfDone (elim e [ symbol s ↦ goes s | end_of r ↦ ends r ]) P
IfDone-entry (symbol s) ends goes P h g = g s
IfDone-entry (end_of r) ends goes P h g = h r

module _ (g : Grammar) (t : Scene) where
  abbrev count : ℕ
  count = length t.gotos.from_state

  map_goto-under : (state s : ℕ) → IfDone (map_goto g t.gotos state s) (λ p. p < count)
  map_goto-under state s =
      IfDone-of (map_goto g t.gotos state s) (λ p. p < count) (map_goto-lt g t.gotos state s)

  read_edges-AllUnder :
      (stateno : ℕ) (targets : List ℕ) → IfDone (read_edges g t stateno targets) (AllUnder count)
  unfolding read_edges
  read_edges-AllUnder stateno [] = λ p m. elim m [ ]
  read_edges-AllUnder stateno (k ∷ targets) =
      let rest = read_edges-AllUnder stateno targets in
      IfDone-if (get_or t.nullable (symbol_of t k) false) _ _ (AllUnder count)
        (IfDone->>= (map_goto g t.gotos stateno (symbol_of t k)) _ (λ p. p < count) _
          (map_goto-under stateno (symbol_of t k))
          (λ p lt.
            IfDone->>= (read_edges g t stateno targets) _ (AllUnder count) _ rest
              (λ edges under. AllUnder-cons count p edges lt under)))
        rest

  abbrev words : ℕ
  words = word_size g.start_symbol

  length-token_bits : (targets bits : List ℕ) → length (token_bits g t targets bits).0 ≡ length bits
  unfolding token_bits
  length-token_bits [] bits = refl
  length-token_bits (k ∷ targets) bits = elim (Bool-cases (leb g.start_symbol (symbol_of t k))) [
    | inl e ↦ rw e refl
    | inr e ↦ rw e (
        length-token_bits targets (set_bit bits (symbol_of t k))
        ∙ length-set_bit bits (symbol_of t k))
  ]

  abbrev IsReading : List ℕ × List ℕ → Type 0
  IsReading r = (length r.0 ≡ words) × AllUnder count r.1

  read_goto-IsReading : (stateno : ℕ) → IfDone (read_goto g t stateno) IsReading
  unfolding read_goto
  read_goto-IsReading stateno =
      IfDone-option (get_or t.shift_table stateno none) _ _ IsReading
        (length-zeros words, λ p m. elim m [ ])
        (λ sp.
          IfDone->>= (read_edges g t stateno (token_bits g t sp.shift (zeros words)).1) _
            (AllUnder count) IsReading
            (read_edges-AllUnder stateno (token_bits g t sp.shift (zeros words)).1)
            (λ edges under. (length-token_bits sp.shift (zeros words) ∙ length-zeros words, under)))

  -- The rows of F and the edges that reads_loop leaves for `n` gotos.
  pub record IsRead (n : ℕ) (f : Matrix) (reads : List (List ℕ)) : Type 0 where
    pub rows : length f ≡ n
    pub size : length reads ≡ n
    pub sized : AllSized words f
    pub under : EachUnder count reads

  pub reads_loop-IsRead :
      (to_state : List ℕ)
      → IfDone (reads_loop g t to_state) (λ (f, reads). IsRead (length to_state) f reads)
  unfolding reads_loop
  reads_loop-IsRead [] = record {
    rows = refl;
    size = refl;
    sized = tt;
    under = λ i p m. elim m [ ];
  }
  reads_loop-IsRead (stateno ∷ to_state) =
      IfDone->>= (read_goto g t stateno) _ IsReading _ (read_goto-IsReading stateno)
        (λ (bits, edges) (size, under).
          IfDone->>= (reads_loop g t to_state) _ (λ (f, reads). IsRead (length to_state) f reads) _
            (reads_loop-IsRead to_state)
            (λ (f, reads) later. record {
              rows = ap suc later.rows;
              size = ap suc later.size;
              sized = (size, later.sized);
              under = EachUnder-cons count edges reads under later.under;
            }))

  add_lookback_edge-EachUnder :
      (stateno ruleno i : ℕ) (lookback : List (List ℕ))
      → i < count
      → EachUnder count lookback
      → IfDone (add_lookback_edge t.reducing stateno ruleno i lookback) (EachUnder count)
  unfolding add_lookback_edge
  add_lookback_edge-EachUnder stateno ruleno i lookback lt each =
      IfDone-option
        (find_rule t.reducing.la_ruleno ruleno
          (get_or t.reducing.lookaheads (stateno + 1) 0 - get_or t.reducing.lookaheads stateno 0)
          (get_or t.reducing.lookaheads stateno 0))
        abort (λ p. done (set lookback p (i ∷ get_or lookback p []))) (EachUnder count) tt
        (λ p.
          EachUnder-set count p (i ∷ get_or lookback p []) lookback
            (AllUnder-cons count i (get_or lookback p []) lt (each p)) each)

  push_edge-AllUnder :
      (p : ℕ) (edges : List ℕ)
      → p < count
      → AllUnder count edges
      → IfDone (push_edge t.gotos.ngotos p edges) (AllUnder count)
  unfolding push_edge
  push_edge-AllUnder p edges lt under =
      IfDone-if (ltb t.gotos.ngotos (length edges)) _ _ (AllUnder count) tt (λ q m.
        elim (Among-append q edges (p ∷ []) m) [
          | inl old ↦ under q old
          | inr (inl e) ↦ omega (arith, e, lt)
          | inr (inr none_left) ↦ elim none_left [ ]
        ])

  push :
      (s stateno : ℕ) (edges : List ℕ)
      → AllUnder count edges
      → IfDone
          (map_goto g t.gotos stateno s >>= λ p. push_edge t.gotos.ngotos p edges)
          (AllUnder count)
  push s stateno edges under =
      IfDone->>= (map_goto g t.gotos stateno s) _ (λ p. p < count) (AllUnder count)
        (map_goto-under stateno s) (λ p lt. push_edge-AllUnder p edges lt under)

  walk_left-AllUnder :
      (states : List ℕ) (length rp : ℕ) (edges : List ℕ)
      → AllUnder count edges
      → IfDone (walk_left g t states length rp edges) (AllUnder count)
  unfolding walk_left
  walk_left-AllUnder states zero rp edges under =
      IfDone-if (is_var g (g.ritem (rp - 1))) _ _ (AllUnder count) tt under
  walk_left-AllUnder states (suc length) rp edges under =
      IfDone-entry (g.ritem (rp - 1)) _ _ (AllUnder count) (λ r. under)
        (λ s.
          let pushed = push s (get_or states length 0) edges under in
          IfDone-if (ltb s g.start_symbol) _ _ (AllUnder count) under (
            IfDone-if (get_or t.nullable s false && ltb 0 length) _ _ (AllUnder count)
              (IfDone->>=
                (map_goto g t.gotos (get_or states length 0) s >>= λ p.
                  push_edge t.gotos.ngotos p edges)
                _ (AllUnder count) (AllUnder count) pushed
                (λ later under'. walk_left-AllUnder states length (rp - 1) later under'))
              pushed))

  abbrev IsRelated : List (List ℕ) × List ℕ → Type 0
  IsRelated r = EachUnder count r.0 × AllUnder count r.1

  relate_rules-IsRelated :
      (i state1 : ℕ) (rules : List ℕ) (lookback : List (List ℕ)) (edges : List ℕ)
      → i < count
      → EachUnder count lookback
      → AllUnder count edges
      → IfDone (relate_rules g t i state1 rules lookback edges) IsRelated
  unfolding relate_rules
  relate_rules-IsRelated i state1 [] lookback edges lt each under = (each, under)
  relate_rules-IsRelated i state1 (rule ∷ rules) lookback edges lt each under =
      IfDone->>= (walk_right g t (set_maxrhs g) (g.nitems + 1) (g.rrhs rule) state1 (state1 ∷ [])) _
        (λ a. Unit) IsRelated (IfDone-any _)
        (λ (rp, stateno, states) any.
          IfDone->>= (add_lookback_edge t.reducing stateno rule i lookback) _ (EachUnder count)
            IsRelated (add_lookback_edge-EachUnder stateno rule i lookback lt each)
            (λ added each'.
              IfDone->>= (walk_left g t states (length states - 1) rp edges) _ (AllUnder count)
                IsRelated (walk_left-AllUnder states (length states - 1) rp edges under)
                (λ later under'.
                  relate_rules-IsRelated i state1 rules added later lt each' under')))

  -- What relate_gotos leaves for `n` gotos.
  pub record IsRelation (n : ℕ) (lookback includes : List (List ℕ)) : Type 0 where
    pub size : length includes ≡ n
    pub looks : EachUnder count lookback
    pub under : EachUnder count includes

  pub relate_gotos-IsRelation :
      (left i : ℕ) (lookback : List (List ℕ))
      → i + left ≡ count
      → EachUnder count lookback
      → IfDone
          (relate_gotos g t left i lookback)
          (λ (last, includes). IsRelation left last includes)
  unfolding relate_gotos
  relate_gotos-IsRelation zero i lookback e each = record {
    size = refl;
    looks = each;
    under = λ i p m. elim m [ ];
  }
  relate_gotos-IsRelation (suc left) i lookback e each =
      IfDone->>=
        (relate_rules g t i (get_or t.gotos.from_state i 0)
          (derives g (symbol_of t (get_or t.gotos.to_state i 0))) lookback [])
        _ IsRelated _
        (relate_rules-IsRelated i _ _ lookback [] (omega (arith, e)) each (λ p m. elim m [ ]))
        (λ (later, edges) (each', under).
          IfDone->>= (relate_gotos g t left (i + 1) later) _
            (λ (last, includes). IsRelation left last includes) _
            (relate_gotos-IsRelation left (i + 1) later (omega (arith, e)) each')
            (λ (last, includes) rest. record {
              size = ap suc rest.size;
              looks = rest.looks;
              under = EachUnder-cons count edges includes under rest.under;
            }))
