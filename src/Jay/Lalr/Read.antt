-- ===== src/Jay/Lalr/Read.antt =====
-- The relation reads: what reads_loop leaves for each goto.
use llc.Common.{ℕ, zero, suc, ◌≤◌, ◌<◌, ◌≡◌, ◌↔◌, inl, inr, refl, sym, ap, subst, ◌∙◌, arith}
use llc.Common.{
  true, false, none, some, List, [], ◌∷◌, length, get_or, done, ◌>>=◌, IfDone, IfDone->>=,
  IfDone-map, IfDone-of, Bool-cases, Option-cases, leb, Among,
}
use llc.Jay.Grammar.{Grammar}
use llc.Jay.Bits.{word_size, zeros, set_bit}
use llc.Jay.Automaton.{Shifts}
use llc.Jay.Gotos.{map_goto}
use llc.Jay.Reads.{Scene, symbol_of, token_bits, read_edges, read_goto, reads_loop}

module _ (g : Grammar) (t : Scene) where
  -- Among the targets `k` is at or behind the first one on a variable.
  pub data Later (k : ℕ) : List ℕ → Type 0 where
    first :
        {n : ℕ} {ks : List ℕ} → g.start_symbol ≤ symbol_of t n → Among k (n ∷ ks) → Later k (n ∷ ks)
    behind : {n : ℕ} {ks : List ℕ} → symbol_of t n < g.start_symbol → Later k ks → Later k (n ∷ ks)

  pub token_bits-first :
      (n : ℕ) (ks bits : List ℕ)
      → leb g.start_symbol (symbol_of t n) ≡ true
      → token_bits g t (n ∷ ks) bits ≡ (bits, n ∷ ks)
  unfolding token_bits
  token_bits-first n ks bits e = rw e refl

  pub token_bits-next :
      (n : ℕ) (ks bits : List ℕ)
      → leb g.start_symbol (symbol_of t n) ≡ false
      → token_bits g t (n ∷ ks) bits ≡ token_bits g t ks (set_bit bits (symbol_of t n))
  unfolding token_bits
  token_bits-next n ks bits e = rw e refl

  Later-tokens :
      (k : ℕ) (targets bits : List ℕ) → Among k (token_bits g t targets bits).1 ↔ Later k targets
  Later-tokens k [] bits = unfold token_bits in (λ m. elim m [ ], λ l. elim l [ ])
  Later-tokens k (n ∷ ks) bits = elim (Bool-cases (leb g.start_symbol (symbol_of t n))) [
    | inl e ↦ rw (token_bits-first n ks bits e) (
      λ m. first (ground (arith, e)) m,
      λ l. elim l [ first var m ↦ m | behind lt l' ↦ absurd (ground (arith, e, lt)) ],
    )
    | inr e ↦ rw (token_bits-next n ks bits e) (
      λ m. behind (ground (arith, e)) ((Later-tokens k ks (set_bit bits (symbol_of t n))).0 m),
      λ l. elim l [
        | first var m ↦ absurd (ground (arith, e, var))
        | behind lt l' ↦ (Later-tokens k ks (set_bit bits (symbol_of t n))).1 l'
      ],
    )
  ]

  -- The gotos on the targets at or behind the first one on a variable whose symbols derive the empty
  -- string.
  abbrev Edge : ℕ → List ℕ → ℕ → Type 0
  Edge s targets p =
      (k : ℕ) × Among k targets
      × (get_or t.nullable (symbol_of t k) false ≡ true)
      × (map_goto g t.gotos s (symbol_of t k) ≡ done p)

  same_goto : {a b : ℕ} → done a ≡ done b → a ≡ b
  same_goto e = cc

  read_edges-skip :
      (s k : ℕ) (targets : List ℕ)
      → get_or t.nullable (symbol_of t k) false ≡ false
      → read_edges g t s (k ∷ targets) ≡ read_edges g t s targets
  unfolding read_edges
  read_edges-skip s k targets e = rw e refl

  read_edges-take :
      (s k : ℕ) (targets : List ℕ)
      → get_or t.nullable (symbol_of t k) false ≡ true
      → read_edges g t s (k ∷ targets) ≡ (
          map_goto g t.gotos s (symbol_of t k) >>= λ p.
          read_edges g t s targets >>= λ edges. done (p ∷ edges))
  unfolding read_edges
  read_edges-take s k targets e = rw e refl

  read_edges-Edge :
      (s : ℕ) (targets : List ℕ)
      → IfDone (read_edges g t s targets) (λ edges. (p : ℕ) → Among p edges ↔ Edge s targets p)
  read_edges-Edge s [] =
      unfold read_edges in λ p. (λ m. elim m [ ], λ (k, none_left, n, e). elim none_left [ ])
  read_edges-Edge s (k ∷ targets) =
      let P : List ℕ → Type 0 = λ edges. (p : ℕ) → Among p edges ↔ Edge s (k ∷ targets) p in
      let Q : List ℕ → Type 0 = λ edges. (p : ℕ) → Among p edges ↔ Edge s targets p in
      elim (Bool-cases (get_or t.nullable (symbol_of t k) false)) [
        | inr off ↦
            subst (λ m. IfDone m P) (sym (read_edges-skip s k targets off))
              (IfDone-map (read_edges g t s targets) Q P
                (λ edges all p. (
                  λ m. let (k', m', n, e) = (all p).0 m in (k', inr m', n, e),
                  λ (k', m, n, e). elim m [
                    | inr m' ↦ (all p).1 (k', m', n, e)
                    | inl same ↦
                        let n' =
                          subst (λ z. get_or t.nullable (symbol_of t z) false ≡ true) (sym same)
                            n in
                        let clash : true ≡ false = sym n' ∙ off in absurd cc
                  ],
                ))
                (read_edges-Edge s targets))
        | inl on ↦
            let call = map_goto g t.gotos s (symbol_of t k) in
            subst (λ m. IfDone m P) (sym (read_edges-take s k targets on))
              (IfDone->>= call _ (λ q. call ≡ done q) P
                (IfDone-of call (λ q. call ≡ done q) (λ q e. e))
                (λ q goto.
                  IfDone->>= (read_edges g t s targets) _ Q P (read_edges-Edge s targets)
                    (λ edges all p. (
                      λ m. elim m [
                        | inl e ↦ (k, inl refl, on, goto ∙ ap (λ (z : ℕ). done z) e)
                        | inr m' ↦ let (k', m'', n, e) = (all p).0 m' in (k', inr m'', n, e)
                      ],
                      λ (k', m, n, e). elim m [
                        | inr m' ↦ inr ((all p).1 (k', m', n, e))
                        | inl same ↦
                            let e' =
                              subst (λ z. map_goto g t.gotos s (symbol_of t z) ≡ done p) (sym same)
                                e in
                            inl (same_goto (sym goto ∙ e'))
                      ],
                    ))))
      ]

  -- Goto `p` is on a symbol that derives the empty string, on which state `s` shifts at or behind its
  -- first variable.
  pub record Reads (s p : ℕ) : Type 0 where
    pub sp : Shifts
    pub k : ℕ
    pub shifts : get_or t.shift_table s none ≡ some sp
    pub later : Later k sp.shift
    pub empty : get_or t.nullable (symbol_of t k) false ≡ true
    pub goto : map_goto g t.gotos s (symbol_of t k) ≡ done p

  pub read_goto-null :
      (s : ℕ)
      → get_or t.shift_table s none ≡ none
      → read_goto g t s ≡ done (zeros (word_size g.start_symbol), [])
  unfolding read_goto
  read_goto-null s e = ground (arith, e)

  pub read_goto-some :
      (s : ℕ) (sp : Shifts)
      → get_or t.shift_table s none ≡ some sp
      → read_goto g t s ≡ (
          read_edges g t s (token_bits g t sp.shift (zeros (word_size g.start_symbol))).1
          >>= λ edges. done ((token_bits g t sp.shift (zeros (word_size g.start_symbol))).0, edges))
  unfolding read_goto
  read_goto-some s sp e = ground (arith, e)

  read_goto-Reads :
      (s : ℕ) → IfDone (read_goto g t s) (λ (bits, edges). (p : ℕ) → Among p edges ↔ Reads s p)
  read_goto-Reads s =
      let P : List ℕ × List ℕ → Type 0 = λ (bits, edges). (p : ℕ) → Among p edges ↔ Reads s p in
      elim (Option-cases (get_or t.shift_table s none)) [
        | inl null ↦
            subst (λ m. IfDone m P) (sym (read_goto-null s null))
              (λ p. (
                λ m. elim m [ ],
                λ r. let clash : none ≡ some r.sp = sym null ∙ r.shifts in absurd cc,
              ))
        | inr (sp, at) ↦
            let split = token_bits g t sp.shift (zeros (word_size g.start_symbol)) in
            subst (λ m. IfDone m P) (sym (read_goto-some s sp at))
              (IfDone->>= (read_edges g t s split.1) _
                (λ edges. (p : ℕ) → Among p edges ↔ Edge s split.1 p) P (read_edges-Edge s split.1)
                (λ edges all p. (
                  λ m.
                      let (k, m', n, e) = (all p).0 m in
                      record {
                        sp = sp;
                        k = k;
                        shifts = at;
                        later = (Later-tokens k sp.shift (zeros (word_size g.start_symbol))).0 m';
                        empty = n;
                        goto = e;
                      },
                  λ r.
                      let both : some r.sp ≡ some sp = sym r.shifts ∙ at in
                      let same : r.sp ≡ sp = cc in
                      let later : Later r.k sp.shift =
                        subst (λ (z : Shifts). Later r.k z.shift) same r.later in
                      (all p).1 (
                        r.k,
                        (Later-tokens r.k sp.shift (zeros (word_size g.start_symbol))).1 later,
                        r.empty,
                        r.goto,
                      ),
                )))
      ]

  -- The edges of reads_loop, by the state that each goto enters.
  pub reads_loop-Reads :
      (to_state : List ℕ)
      → IfDone (reads_loop g t to_state) (λ (f, reads).
        (v p : ℕ)
        → v < length to_state
        → Among p (get_or reads v []) ↔ Reads (get_or to_state v 0) p)
  unfolding reads_loop
  reads_loop-Reads [] = λ v p lt. absurd (omega arith)
  reads_loop-Reads (s ∷ to_state) =
      IfDone->>= (read_goto g t s) _ (λ (bits, edges). (p : ℕ) → Among p edges ↔ Reads s p) _
        (read_goto-Reads s)
        (λ (bits, edges) now.
          IfDone->>= (reads_loop g t to_state) _
            (λ (f, reads).
              (v p : ℕ)
              → v < length to_state
              → Among p (get_or reads v []) ↔ Reads (get_or to_state v 0) p)
            _ (reads_loop-Reads to_state)
            (λ (f, reads) rest v p lt. each_goto s to_state edges reads now rest v p lt))
    where
      each_goto :
          (s : ℕ) (to_state edges : List ℕ) (reads : List (List ℕ))
          → ((p : ℕ) → Among p edges ↔ Reads s p)
          → ((v p : ℕ)
              → v < length to_state
              → Among p (get_or reads v []) ↔ Reads (get_or to_state v 0) p)
          → (v p : ℕ) → v < suc (length to_state)
          → Among p (get_or (edges ∷ reads) v []) ↔ Reads (get_or (s ∷ to_state) v 0) p
      each_goto s to_state edges reads now rest zero p lt = now p
      each_goto s to_state edges reads now rest (suc v) p lt = rest v p (omega arith)
