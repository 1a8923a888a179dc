-- ===== src/Jay/Lalr/Includes.antt =====
-- The relations that build_relations makes, by the right sides of the rules.
use llc.Common.{
  ℕ, zero, suc, ◌+◌, ◌-◌, ◌≤◌, ◌<◌, ◌≡◌, ◌≢◌, ◌↔◌, ◌⊎◌, inl, inr, refl, sym, subst, ◌∙◌, arith,
}
use llc.Common.{
  false, true, ◌&&◌, none, some, List, [], ◌∷◌, ◌++◌, length, get_or, Run, done, fault, ◌>>=◌,
  IfDone, IfDone->>=, IfDone-if, IfDone-of, IfDone-map, Bool-cases, Option-cases, ltb, ◌==◌, Among,
  append_assoc, append_nil, if◌then◌else◌,
}
use native.Mathlib.Decide.{dec_lt}
use llc.Jay.Grammar.{Grammar, symbol, end_of}
use llc.Jay.Grammar.Entries.{symbol-injective, symbol-ne-end_of}
use llc.Jay.Automaton.{Shifts}
use llc.Jay.Gotos.{map_goto}
use llc.Jay.Reads.{Scene, symbol_of}
use llc.Jay.Relations.{next_state, walk_right, push_edge, walk_left}
use llc.Jay.Lr0.Itemsets.{entry_case}

module _ (g : Grammar) (t : Scene) where
  -- `n` is the first of the targets on symbol `x`, or the last one, from state `s`.
  pub data First (x : ℕ) : ℕ → List ℕ → ℕ → Type 0 where
    over : {s : ℕ} → First x s [] s
    found : {s k : ℕ} {ks : List ℕ} → symbol_of t k ≡ x → First x s (k ∷ ks) k
    passed : {s k n : ℕ} {ks : List ℕ} → symbol_of t k ≢ x → First x k ks n → First x s (k ∷ ks) n

  -- From state `s` the right side from entry `rp` on leads over the states listed to `q`, and ends at
  -- entry `rq`.
  pub data Spells : ℕ → ℕ → List ℕ → ℕ → ℕ → Type 0 where
    ends : {rp s : ℕ} (r : ℕ) → g.ritem rp ≡ end_of r → Spells rp s [] rp s
    goes :
        {rp s next rq q : ℕ} {rest : List ℕ} (x : ℕ) (sp : Shifts)
        → g.ritem rp ≡ symbol x
        → get_or t.shift_table s none ≡ some sp
        → First x s sp.shift next
        → Spells (rp + 1) next rest rq q
        → Spells rp s (next ∷ rest) rq q

  next_state-First : (x s : ℕ) (ks : List ℕ) → First x s ks (next_state t x s ks)
  unfolding next_state
  next_state-First x s [] = over
  next_state-First x s (k ∷ ks) = elim (Bool-cases (symbol_of t k == x)) [
    | inl e ↦ rw e (found (ground (arith, e)))
    | inr e ↦ rw e (passed (ground (arith, e)) (next_state-First x k ks))
  ]

  First_unique : (x s n m : ℕ) (ks : List ℕ) → First x s ks n → First x s ks m → n ≡ m
  First_unique x s n m [] over over = refl
  First_unique x s n m (k ∷ ks) (found e) (found e') = refl
  First_unique x s n m (k ∷ ks) (found e) (passed ne f) = absurd (ne e)
  First_unique x s n m (k ∷ ks) (passed ne f) (found e) = absurd (ne e)
  First_unique x s n m (k ∷ ks) (passed ne f) (passed ne' f') = First_unique x k n m ks f f'

  walk_right-end :
      (maxrhs fuel rp s r : ℕ) (states : List ℕ)
      → g.ritem rp ≡ end_of r
      → walk_right g t maxrhs (suc fuel) rp s states ≡ done (rp, s, states)
  unfolding walk_right
  walk_right-end maxrhs fuel rp s r states e = ground (arith, e)

  walk_right-null :
      (maxrhs fuel rp s x : ℕ) (states : List ℕ)
      → g.ritem rp ≡ symbol x
      → get_or t.shift_table s none ≡ none
      → walk_right g t maxrhs (suc fuel) rp s states ≡ fault
  unfolding walk_right
  walk_right-null maxrhs fuel rp s x states e e' = ground (arith, e, e')

  walk_right-step :
      (maxrhs fuel rp s x : ℕ) (sp : Shifts) (states : List ℕ)
      → g.ritem rp ≡ symbol x
      → get_or t.shift_table s none ≡ some sp
      → walk_right g t maxrhs (suc fuel) rp s states ≡ (
          if ltb maxrhs (length states)
          then fault
          else walk_right g t maxrhs fuel
              (rp + 1)
              (next_state t x s sp.shift)
              (states ++ next_state t x s sp.shift ∷ []))
  unfolding walk_right
  walk_right-step maxrhs fuel rp s x sp states e e' = ground (arith, e, e')

  -- What walk_right answers.
  abbrev pub Walked : ℕ → ℕ → List ℕ → ℕ × ℕ × List ℕ → Type 0
  Walked rp s states (rq, q, all) =
      (rest : List ℕ) × (all ≡ states ++ rest) × Spells rp s rest rq q × (rq ≡ rp + length rest)

  pub walk_right-Walked :
      (maxrhs fuel rp s : ℕ) (states : List ℕ)
      → IfDone (walk_right g t maxrhs fuel rp s states) (Walked rp s states)
  walk_right-Walked maxrhs zero rp s states = unfold walk_right in tt
  walk_right-Walked maxrhs (suc fuel) rp s states = elim (entry_case (g.ritem rp)) [
    | inr (r, e) ↦
        subst (λ m. IfDone m (Walked rp s states))
          (sym (walk_right-end maxrhs fuel rp s r states e))
          ([], sym (append_nil states), ends r e, omega arith)
    | inl (x, e) ↦ elim (Option-cases (get_or t.shift_table s none)) [
      | inl null ↦
          subst (λ m. IfDone m (Walked rp s states))
            (sym (walk_right-null maxrhs fuel rp s x states e null)) tt
      | inr (sp, at) ↦
          let next = next_state t x s sp.shift in
          subst (λ m. IfDone m (Walked rp s states))
            (sym (walk_right-step maxrhs fuel rp s x sp states e at))
            (IfDone-if (ltb maxrhs (length states)) _ _ (Walked rp s states) tt (
              IfDone-map _ (Walked (rp + 1) next (states ++ next ∷ [])) (Walked rp s states)
                (λ (rq, q, all) (rest, same, path, len). (
                  next ∷ rest,
                  same ∙ append_assoc states (next ∷ []) rest,
                  goes x sp e at (next_state-First x s sp.shift) path,
                  omega (arith, len),
                ))
                (walk_right-Walked maxrhs fuel (rp + 1) next (states ++ next ∷ []))))
    ]
  ]

  shifts_same :
      (s : ℕ) (sp sp' : Shifts)
      → get_or t.shift_table s none ≡ some sp
      → get_or t.shift_table s none ≡ some sp'
      → sp ≡ sp'
  shifts_same s sp sp' e e' = let both : some sp ≡ some sp' = sym e ∙ e' in cc

  pub Spells_unique :
      (rp s rq q rq' q' : ℕ) (rest rest' : List ℕ)
      → Spells rp s rest rq q
      → Spells rp s rest' rq' q'
      → (rest ≡ rest') × (rq ≡ rq') × (q ≡ q')
  Spells_unique rp s rq q rq' q' [] [] (ends r e) (ends r' e') = (refl, refl, refl)
  Spells_unique rp s rq q rq' q' [] (n' ∷ rest') (ends r e) (goes x' sp' e' at' f' path') =
      absurd (symbol-ne-end_of (sym e' ∙ e))
  Spells_unique rp s rq q rq' q' (n ∷ rest) [] (goes x sp e at f path) (ends r' e') =
      absurd (symbol-ne-end_of (sym e ∙ e'))
  Spells_unique rp s rq q rq' q' (n ∷ rest) (n' ∷ rest') (goes x sp e at f path)
        (goes x' sp' e' at' f' path') =
      let same_x : x' ≡ x = symbol-injective (sym e' ∙ e) in
      let same_sp : sp' ≡ sp = shifts_same s sp' sp at' at in
      let f'' : First x s sp.shift n' =
        subst (λ z. First z s sp.shift n') same_x
          (subst (λ (z : Shifts). First x' s z.shift n') same_sp f') in
      let same_n : n' ≡ n = First_unique x s n' n sp.shift f'' f in
      let (a, b, c) =
        Spells_unique (rp + 1) n rq q rq' q' rest rest' path
          (subst (λ z. Spells (rp + 1) z rest' rq' q') same_n path') in
      (cc (a, same_n), b, c)

  -- The entry is a variable that derives the empty string.
  abbrev pub Vanishes : ℕ → Type 0
  Vanishes e =
      (y : ℕ) × (g.ritem e ≡ symbol y) × (g.start_symbol ≤ y) × (get_or t.nullable y false ≡ true)

  -- `p` is the goto on a variable of the right side from entry `from` on, one of the first `len`, and
  -- from the state before it, where all those behind it derive the empty string.
  abbrev pub Behind : ℕ → ℕ → List ℕ → ℕ → Type 0
  Behind from len states p =
      (k : ℕ) × (x : ℕ) × (k < len)
      × (g.ritem (from + k) ≡ symbol x)
      × (g.start_symbol ≤ x)
      × ((m : ℕ) → k < m → m < len → Vanishes (from + m))
      × (map_goto g t.gotos (get_or states k 0) x ≡ done p)

  pub walk_left-end :
      (states : List ℕ) (len rp r : ℕ) (edges : List ℕ)
      → g.ritem (rp - 1) ≡ end_of r
      → walk_left g t states (suc len) rp edges ≡ done edges
  unfolding walk_left
  walk_left-end states len rp r edges e = ground (arith, e)

  pub walk_left-token :
      (states : List ℕ) (len rp s : ℕ) (edges : List ℕ)
      → g.ritem (rp - 1) ≡ symbol s
      → s < g.start_symbol
      → walk_left g t states (suc len) rp edges ≡ done edges
  unfolding walk_left
  walk_left-token states len rp s edges e lt = ground (arith, e, lt)

  abbrev pub pushed : List ℕ → ℕ → ℕ → List ℕ → Run (List ℕ)
  pushed states len s edges =
      map_goto g t.gotos (get_or states len 0) s >>= λ p. push_edge t.gotos.ngotos p edges

  pub walk_left-stop :
      (states : List ℕ) (len rp s : ℕ) (edges : List ℕ)
      → g.ritem (rp - 1) ≡ symbol s
      → g.start_symbol ≤ s
      → (get_or t.nullable s false && ltb 0 len) ≡ false
      → walk_left g t states (suc len) rp edges ≡ pushed states len s edges
  unfolding walk_left
  walk_left-stop states len rp s edges e le off = ground (arith, e, le, off)

  pub walk_left-on :
      (states : List ℕ) (len rp s : ℕ) (edges : List ℕ)
      → g.ritem (rp - 1) ≡ symbol s
      → g.start_symbol ≤ s
      → (get_or t.nullable s false && ltb 0 len) ≡ true
      → walk_left g t states (suc len) rp edges
        ≡ (pushed states len s edges >>= λ later. walk_left g t states len (rp - 1) later)
  unfolding walk_left
  walk_left-on states len rp s edges e le on = ground (arith, e, le, on)

  abbrev pub Pushed : List ℕ → ℕ → ℕ → List ℕ → List ℕ → Type 0
  Pushed states len s edges later =
      (p : ℕ) × (map_goto g t.gotos (get_or states len 0) s ≡ done p) × (later ≡ edges ++ p ∷ [])

  pub pushed-Pushed :
      (states : List ℕ) (len s : ℕ) (edges : List ℕ)
      → IfDone (pushed states len s edges) (Pushed states len s edges)
  unfolding push_edge
  pushed-Pushed states len s edges =
      let call = map_goto g t.gotos (get_or states len 0) s in
      IfDone->>= call _ (λ p. call ≡ done p) (Pushed states len s edges)
        (IfDone-of call (λ p. call ≡ done p) (λ p e. e))
        (λ p e.
          IfDone-if (ltb t.gotos.ngotos (length edges)) _ _ (Pushed states len s edges) tt
            (p, e, refl))

  -- What walk_left adds to the edges.
  abbrev pub Left : ℕ → ℕ → List ℕ → List ℕ → List ℕ → Type 0
  Left from len states edges later =
      (p : ℕ) → Among p later ↔ (Among p edges ⊎ Behind from len states p)

  -- The last entry does not vanish, and is no variable.
  pub absent-Behind :
      (from len p : ℕ) (states : List ℕ)
      → ((y : ℕ) → g.ritem (from + len) ≡ symbol y → g.start_symbol ≤ y → ⊥)
      → Behind from (suc len) states p
      → ⊥
  absent-Behind from len p states no_var (k, x, lt, at, var, vanish, e) = elim (dec_lt k len) [
    | yes before ↦ let (y, at', var', n) = vanish len before (omega arith) in no_var y at' var'
    | no last ↦
        let same : k ≡ len = omega arith in
        no_var x (subst (λ z. g.ritem (from + z) ≡ symbol x) same at) var
  ]

  same_goto : {a b : ℕ} → done a ≡ done b → a ≡ b
  same_goto e = cc

  -- The last entry is a variable: its goto, and, where it vanishes, those before it.
  pub last_or_before :
      (from len p s q : ℕ) (states : List ℕ)
      → g.ritem (from + len) ≡ symbol s
      → map_goto g t.gotos (get_or states len 0) s ≡ done q
      → Behind from (suc len) states p
      → (p ≡ q) ⊎ (Behind from len states p × (get_or t.nullable s false ≡ true) × (0 < len))
  last_or_before from len p s q states at goto (k, x, lt, at', var, vanish, e) =
      elim (dec_lt k len) [
        | yes before ↦
            let (y, at'', var', n) = vanish len before (omega arith) in
            let same : y ≡ s = symbol-injective (sym at'' ∙ at) in
            inr (
              (k, x, before, at', var, λ m lo hi. vanish m lo (omega arith), e),
              subst (λ z. get_or t.nullable z false ≡ true) same n,
              omega arith,
            )
        | no last ↦
            let same : k ≡ len = omega arith in
            let same_x : x ≡ s =
              symbol-injective (sym (subst (λ z. g.ritem (from + z) ≡ symbol x) same at') ∙ at) in
            let e' : map_goto g t.gotos (get_or states len 0) s ≡ done p =
              subst (λ z. map_goto g t.gotos (get_or states len 0) z ≡ done p) same_x
                (subst (λ z. map_goto g t.gotos (get_or states z 0) x ≡ done p) same e) in
            inl (same_goto (sym e' ∙ goto))
      ]

  pub last-Behind :
      (from len s q : ℕ) (states : List ℕ)
      → g.ritem (from + len) ≡ symbol s
      → g.start_symbol ≤ s
      → map_goto g t.gotos (get_or states len 0) s ≡ done q
      → Behind from (suc len) states q
  last-Behind from len s q states at var goto =
      (len, s, omega arith, at, var, λ m lo hi. absurd (omega arith), goto)

  pub before-Behind :
      (from len s p : ℕ) (states : List ℕ)
      → g.ritem (from + len) ≡ symbol s
      → g.start_symbol ≤ s
      → get_or t.nullable s false ≡ true
      → Behind from len states p
      → Behind from (suc len) states p
  before-Behind from len s p states at var n (k, x, lt, at', var', vanish, e) = (
    k,
    x,
    omega arith,
    at',
    var',
    λ m lo hi. elim (dec_lt m len) [
      | yes before ↦ vanish m lo before
      | no last ↦
          let same : len ≡ m = omega arith in subst (λ z. Vanishes (from + z)) same (s, at, var, n)
    ],
    e,
  )
