-- ===== src/Jay/Lalr/Direct.antt =====
-- The bits that reads_loop sets for each goto: the tokens that may follow it at once.
use llc.Common.{ℕ, zero, suc, ◌<◌, ◌≡◌, ◌↔◌, ◌⊎◌, inl, inr, refl, sym, ap, subst, ◌∙◌, arith}
use llc.Common.{
  true, false, none, some, List, [], ◌∷◌, length, get_or, IfDone, IfDone->>=, IfDone-any,
  Bool-cases, Option-cases, leb,
}
use native.Mathlib.Decide.{ℕ_discrete}
use llc.Jay.Grammar.{Grammar}
use llc.Jay.Bits.{
  word_size, zeros, set_bit, bit, bit-set_bit_self, bit-set_bit_ne, length-set_bit, bit-zeros,
  length-zeros,
}
use llc.Jay.Warshall.Round.{related}
use llc.Jay.Automaton.{Shifts}
use llc.Jay.Reads.{Scene, symbol_of, token_bits, read_edges, read_goto, reads_loop}
use llc.Jay.Lalr.Read.{token_bits-first, token_bits-next, read_goto-null, read_goto-some}

module _ (g : Grammar) (t : Scene) where
  -- Among the targets `k` is on a token and before the first one on a variable.
  pub data Early (k : ℕ) : List ℕ → Type 0 where
    here : {n : ℕ} {ks : List ℕ} → symbol_of t n < g.start_symbol → n ≡ k → Early k (n ∷ ks)
    next : {n : ℕ} {ks : List ℕ} → symbol_of t n < g.start_symbol → Early k ks → Early k (n ∷ ks)

  abbrev words : ℕ
  words = word_size g.start_symbol

  abbrev Token : List ℕ → ℕ → Type 0
  Token targets b = (k : ℕ) × Early k targets × (symbol_of t k ≡ b)

  token_bits-Token :
      (targets bits : List ℕ) (b : ℕ)
      → length bits ≡ words
      → (bit (token_bits g t targets bits).0 b ≡ true) ↔ ((bit bits b ≡ true) ⊎ Token targets b)
  token_bits-Token [] bits b size =
      unfold token_bits in
      (λ on. inl on, λ m. elim m [ inl on ↦ on | inr (k, early, e) ↦ elim early [ ] ])
  token_bits-Token (n ∷ ks) bits b size = elim (Bool-cases (leb g.start_symbol (symbol_of t n))) [
    | inl e ↦ rw (token_bits-first g t n ks bits e) (
      λ on. inl on,
      λ m. elim m [
        | inl on ↦ on
        | inr (k, here lt same, is_b) ↦ absurd (ground (arith, e, lt))
        | inr (k, next lt early, is_b) ↦ absurd (ground (arith, e, lt))
      ],
    )
    | inr e ↦
        let s = symbol_of t n in
        let token : s < g.start_symbol = ground (arith, e) in
        let all = token_bits-Token ks (set_bit bits s) b (length-set_bit bits s ∙ size) in
        rw (token_bits-next g t n ks bits e) (
          λ on. elim (all.0 on) [
            | inr (k, early, is_b) ↦ inr (k, next token early, is_b)
            | inl set_on ↦ elim (ℕ_discrete s b) [
              | yes same ↦ inr (n, here token refl, same)
              | no apart ↦ inl (sym (bit-set_bit_ne bits s b apart) ∙ set_on)
            ]
          ],
          λ m. elim m [
            | inr (k, next lt early, is_b) ↦ all.1 (inr (k, early, is_b))
            | inr (k, here lt same, is_b) ↦
                let s_is_b : s ≡ b = ap (λ z. symbol_of t z) same ∙ is_b in
                all.1 (
                  inl (
                    subst (λ z. bit (set_bit bits s) z ≡ true) s_is_b
                      (bit-set_bit_self bits s (omega (arith, size, token)))))
            | inl on ↦ elim (ℕ_discrete s b) [
              | no apart ↦ all.1 (inl (bit-set_bit_ne bits s b apart ∙ on))
              | yes same ↦ all.1 (
                  inl (
                    subst (λ z. bit (set_bit bits s) z ≡ true) same
                      (bit-set_bit_self bits s (omega (arith, size, token)))))
            ]
          ],
        )
  ]

  -- State `s` shifts the token `b`, before its first variable.
  pub record Directly (s b : ℕ) : Type 0 where
    pub sp : Shifts
    pub k : ℕ
    pub shifts : get_or t.shift_table s none ≡ some sp
    pub early : Early k sp.shift
    pub token : symbol_of t k ≡ b

  read_goto-Directly :
      (s : ℕ)
      → IfDone (read_goto g t s) (λ (bits, edges). (b : ℕ) → (bit bits b ≡ true) ↔ Directly s b)
  read_goto-Directly s =
      let P : List ℕ × List ℕ → Type 0 =
        λ (bits, edges). (b : ℕ) → (bit bits b ≡ true) ↔ Directly s b in
      elim (Option-cases (get_or t.shift_table s none)) [
        | inl null ↦
            subst (λ m. IfDone m P) (sym (read_goto-null g t s null))
              (λ b. (
                λ on. let clash : false ≡ true = sym (bit-zeros words b) ∙ on in absurd cc,
                λ r. let clash : none ≡ some r.sp = sym null ∙ r.shifts in absurd cc,
              ))
        | inr (sp, at) ↦
            let split = token_bits g t sp.shift (zeros words) in
            subst (λ m. IfDone m P) (sym (read_goto-some g t s sp at))
              (IfDone->>= (read_edges g t s split.1) _ (λ edges. Unit) P
                (IfDone-any (read_edges g t s split.1))
                (λ edges any b.
                  let all = token_bits-Token sp.shift (zeros words) b (length-zeros words) in
                  (
                    λ on. elim (all.0 on) [
                      | inl zero_on ↦
                          let clash : false ≡ true = sym (bit-zeros words b) ∙ zero_on in absurd cc
                      | inr (k, early, is_b) ↦ record {
                        sp = sp;
                        k = k;
                        shifts = at;
                        early = early;
                        token = is_b;
                      }
                    ],
                    λ r.
                        let both : some r.sp ≡ some sp = sym r.shifts ∙ at in
                        let same : r.sp ≡ sp = cc in
                        all.1 (
                          inr
                            (r.k, subst (λ (z : Shifts). Early r.k z.shift) same r.early, r.token)),
                  )))
      ]

  -- The rows of F that reads_loop leaves.
  pub reads_loop-Directly :
      (to_state : List ℕ)
      → IfDone (reads_loop g t to_state) (λ (f, reads).
        (v b : ℕ) → v < length to_state → (related f v b ≡ true) ↔ Directly (get_or to_state v 0) b)
  unfolding reads_loop related
  reads_loop-Directly [] = λ v b lt. absurd (omega arith)
  reads_loop-Directly (s ∷ to_state) =
      IfDone->>= (read_goto g t s) _ (λ (bits, edges). (b : ℕ) → (bit bits b ≡ true) ↔ Directly s b)
        _ (read_goto-Directly s)
        (λ (bits, edges) now.
          IfDone->>= (reads_loop g t to_state) _
            (λ (f, reads).
              (v b : ℕ)
              → v < length to_state
              → (bit (get_or f v []) b ≡ true) ↔ Directly (get_or to_state v 0) b)
            _ (reads_loop-Directly to_state)
            (λ (f, reads) rest v b lt. each_row s to_state bits f now rest v b lt))
    where
      each_row :
          (s : ℕ) (to_state bits : List ℕ) (f : List (List ℕ))
          → ((b : ℕ) → (bit bits b ≡ true) ↔ Directly s b)
          → ((v b : ℕ)
              → v < length to_state
              → (bit (get_or f v []) b ≡ true) ↔ Directly (get_or to_state v 0) b)
          → (v b : ℕ) → v < suc (length to_state)
          → (bit (get_or (bits ∷ f) v []) b ≡ true) ↔ Directly (get_or (s ∷ to_state) v 0) b
      each_row s to_state bits f now rest zero b lt = now b
      each_row s to_state bits f now rest (suc v) b lt = rest v b (omega arith)
