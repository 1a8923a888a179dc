-- ===== src/Jay/Lr0/State.antt =====
-- get_state finds the state of a set of items, or makes it.
use llc.Common.{ℕ, ◌+◌, ◌≤◌, ◌<◌, ◌≡◌, ◌≢◌, ◌⊎◌, inl, inr, refl, sym, ap, subst, ◌∙◌, arith}
use llc.Common.{
  some, List, [], ◌∷◌, ◌++◌, length, length-append, length-set, get_or, set, get_or-set_self,
  get_or-set_ne, set_out, get_elem?, get_elem?-append_left, get_elem?-append_last,
  get_elem?-snoc_cases, done, abort, ltb, leb, Among, Among-append, Among-append_left,
  Among-append_right, Bool-cases, ltb→lt, both_true,
}
use native.Mathlib.Decide.{ℕ_discrete, dec_lt}
use llc.Jay.Grammar.Entries.{symbol-injective}
use llc.Jay.Grammar.{maxshort, Grammar, symbol}
use llc.Jay.Lr0.{Core, States, new_state, is_item, get_items}
use llc.Jay.Closure.Order.{Rising}
use llc.Jay.Lr0.Reached.{Reached}
use llc.Jay.Lr0.Store.{hit, miss, Search-chain}

-- The first item of a kernel is behind the symbol.
abbrev pub Behind : Grammar → ℕ → List ℕ → Type 0
Behind g s [] = ⊥
Behind g s (key ∷ items) = (i : ℕ) × (key ≡ i + 1) × (g.ritem i ≡ symbol s)

abbrev first_item : List ℕ → ℕ
first_item [] = 0
first_item (key ∷ items) = key

-- The tables of states are in order. State 0, which no key has, is made before the others.
pub record IsStore (g : Grammar) (st : States) : Type 0 where
  pub started : 0 < length st.states
  pub count : st.nstates ≡ length st.states
  pub bounded : st.nstates ≤ maxshort
  pub keys : length st.state_set ≡ g.nitems
  pub numbered : (n : ℕ) (p : Core) → get_elem? st.states n ≡ some p → p.number ≡ n
  pub listed :
      (key : ℕ) (p : Core)
      → Among p (get_or st.state_set key [])
      → (0 < p.number) × (get_elem? st.states p.number ≡ some p)
  pub linked :
      (n : ℕ) (p : Core)
      → 0 < n
      → get_elem? st.states n ≡ some p
      → Among p (get_or st.state_set (first_item p.items) [])
  pub entered :
      (n : ℕ) (p : Core)
      → 0 < n
      → get_elem? st.states n ≡ some p
      → Behind g p.accessing_symbol p.items
  pub in_order : (n : ℕ) (p : Core) → get_elem? st.states n ≡ some p → Rising 0 g.nitems p.items
  pub reached : (n : ℕ) (p : Core) → get_elem? st.states n ≡ some p → Reached g p.items
  pub unique :
      (n m : ℕ) (p q : Core)
      → 0 < n
      → 0 < m
      → get_elem? st.states n ≡ some p
      → get_elem? st.states m ≡ some q
      → p.items ≡ q.items
      → n ≡ m

-- No state but the first has these items.
abbrev pub Missing : States → List ℕ → Type 0
Missing st items = (n : ℕ) (q : Core) → 0 < n → get_elem? st.states n ≡ some q → q.items ≢ items

-- The later tables have the states of the earlier ones.
abbrev pub Extends : States → States → Type 0
Extends st st' =
    (n : ℕ) (p : Core) → get_elem? st.states n ≡ some p → get_elem? st'.states n ≡ some p

-- State `k` has these items and is entered by this symbol.
pub record IsState (st : States) (k s : ℕ) (items : List ℕ) : Type 0 where
  pub core : Core
  pub at : get_elem? st.states k ≡ some core
  pub same_items : core.items ≡ items
  pub symbol_in : core.accessing_symbol ≡ s
  pub later : 0 < k

pub record Got (g : Grammar) (s : ℕ) (items : List ℕ) (st : States) (got : ℕ × States)
    : Type 0 where
  pub store : IsStore g got.1
  pub extends : Extends st got.1
  pub state : IsState got.1 got.0 s items

done-injective : {a b : ℕ × States} → done a ≡ done b → a ≡ b
done-injective e = cc

Behind-same : (g : Grammar) (s t : ℕ) (items : List ℕ) → Behind g s items → Behind g t items → s ≡ t
Behind-same g s t [] h k = elim h [ ]
Behind-same g s t (key ∷ items) (i, e, at) (j, e', at') =
    let same : i ≡ j = omega arith in symbol-injective (sym at ∙ rw same at')

abbrev new_core : States → ℕ → List ℕ → Core
new_core st s items = record { number = st.nstates; accessing_symbol = s; items = items }

-- The tables with a new state in them.
abbrev with_state : States → ℕ → ℕ → List ℕ → States
with_state st s key items =
    let p = new_core st s (key ∷ items) in
    record {
      states = st.states ++ p ∷ [];
      nstates = st.nstates + 1;
      state_set = set st.state_set key (get_or st.state_set key [] ++ p ∷ []);
    }

data NewState (s : ℕ) (items : List ℕ) (st : States) : Type 0 where
  too_many : maxshort ≤ st.nstates → new_state s items st ≡ abort → NewState s items st
  room :
      st.nstates < maxshort
      → new_state s items st
        ≡ done (
          new_core st s items,
          record st { states = st.states ++ new_core st s items ∷ []; nstates = st.nstates + 1 },
        )
      → NewState s items st

NewState-cases : (s : ℕ) (items : List ℕ) (st : States) → NewState s items st
unfolding new_state
NewState-cases s items st = elim (Bool-cases (leb maxshort st.nstates)) [
  | inl full ↦ too_many (ground (arith, full)) (rw full refl)
  | inr free ↦ room (ground (arith, free)) (rw free refl)
]

-- A chain behind a new link.
chain_cases :
    (state_set : List (List Core)) (key key' : ℕ) (p q : Core)
    → Among q (get_or (set state_set key (get_or state_set key [] ++ p ∷ [])) key' [])
    → Among q (get_or state_set key' []) ⊎ (p ≡ q)
chain_cases state_set key key' p q m = elim (ℕ_discrete key key') [
  | no apart ↦ inl (rw (get_or-set_ne state_set key key' _ [] apart) at m)
  | yes same ↦ elim (dec_lt key (length state_set)) [
    | no out ↦ inl (rw (set_out state_set key _ (omega arith)) at m)
    | yes inside ↦
        elim (Among-append q (get_or state_set key []) (p ∷ [])
          (rw (sym same, get_or-set_self state_set key _ [] inside) at m)) [
            | inl old ↦ inl (rw same at old)
            | inr (inl e) ↦ inr e
            | inr (inr m') ↦ elim m' [ ]
          ]
  ]
]

chain-keeps :
    (state_set : List (List Core)) (key key' : ℕ) (p q : Core)
    → key < length state_set
    → Among q (get_or state_set key' []) ⊎ ((p ≡ q) × (key ≡ key'))
    → Among q (get_or (set state_set key (get_or state_set key [] ++ p ∷ [])) key' [])
chain-keeps state_set key key' p q inside m = elim (ℕ_discrete key key') [
  | yes same ↦
      subst (λ k. Among q (get_or (set state_set key (get_or state_set key [] ++ p ∷ [])) k []))
        same
        (rw (get_or-set_self state_set key (get_or state_set key [] ++ p ∷ []) [] inside) (elim m [
          | inl old ↦ Among-append_left q (get_or state_set key []) (p ∷ []) (rw (sym same) at old)
          | inr (e, at) ↦ Among-append_right q (get_or state_set key []) (p ∷ []) (inl e)
        ]))
  | no apart ↦
      rw (get_or-set_ne state_set key key' _ [] apart)
        (elim m [ inl old ↦ old | inr (e, at) ↦ absurd (apart at) ])
]

module _ (g : Grammar) where
  module _ (s key : ℕ) (items : List ℕ) (st : States) (ok : IsStore g st) where
    abbrev p : Core
    p = new_core st s (key ∷ items)

    abbrev st' : States
    st' = with_state st s key items

    p_at : get_elem? st'.states st.nstates ≡ some p
    p_at =
        subst (λ n. get_elem? (st.states ++ p ∷ []) n ≡ some p) (sym ok.count)
          (get_elem?-append_last st.states p)

    -- No later state has the items, where none of their key has.
    pub Missing-of :
        ((q : Core) → Among q (get_or st.state_set key []) → q.items ≢ key ∷ items)
        → Missing st (key ∷ items)
    Missing-of fresh n q pos at e =
        fresh q
          (subst (λ k. Among q (get_or st.state_set k [])) (ap (λ xs. first_item xs) e)
            (ok.linked n q pos at))
          e

    with_state-IsStore :
        st.nstates < maxshort
        → key < g.nitems
        → Behind g s (key ∷ items)
        → Rising 0 g.nitems (key ∷ items)
        → Reached g (key ∷ items)
        → ((q : Core) → Among q (get_or st.state_set key []) → q.items ≢ key ∷ items)
        → IsStore g st'
    with_state-IsStore free lt behind rising made fresh =
        let clash = Missing-of fresh in
        let inside : key < length st.state_set = rw ok.keys lt in
        let size = length-append st.states (p ∷ []) in
        let begun = ok.started in
        let counted = ok.count in
        record {
          started = omega arith;
          count = omega arith;
          bounded = omega arith;
          keys = length-set st.state_set key _ ∙ ok.keys;
          numbered = λ n q at. elim (get_elem?-snoc_cases st.states p q n at) [
            | inl old ↦ ok.numbered n q old
            | inr (e, same) ↦ rw (sym same) (ok.count ∙ sym e)
          ];
          listed = λ key' q m. elim (chain_cases st.state_set key key' p q m) [
            | inl old ↦
                let (pos, at) = ok.listed key' q old in
                (pos, get_elem?-append_left st.states (p ∷ []) q.number q at)
            | inr same ↦ rw (sym same) (omega arith, p_at)
          ];
          linked = λ n q pos at. elim (get_elem?-snoc_cases st.states p q n at) [
            | inl old ↦
                chain-keeps st.state_set key (first_item q.items) p q inside
                  (inl (ok.linked n q pos old))
            | inr (e, same) ↦
                chain-keeps st.state_set key (first_item q.items) p q inside
                  (inr (same, ap (λ x. first_item x.items) same))
          ];
          entered = λ n q pos at. elim (get_elem?-snoc_cases st.states p q n at) [
            | inl old ↦ ok.entered n q pos old
            | inr (e, same) ↦ rw (sym same) behind
          ];
          in_order = λ n q at. elim (get_elem?-snoc_cases st.states p q n at) [
            | inl old ↦ ok.in_order n q old
            | inr (e, same) ↦ rw (sym same) rising
          ];
          reached = λ n q at. elim (get_elem?-snoc_cases st.states p q n at) [
            | inl old ↦ ok.reached n q old
            | inr (e, same) ↦ rw (sym same) made
          ];
          unique = λ n m q r n_pos m_pos q_at r_at e.
              elim (get_elem?-snoc_cases st.states p q n q_at) [
                | inl q_old ↦ elim (get_elem?-snoc_cases st.states p r m r_at) [
                  | inl r_old ↦ ok.unique n m q r n_pos m_pos q_old r_old e
                  | inr (at, same) ↦
                      absurd (clash n q n_pos q_old (e ∙ ap (λ x. x.items) (sym same)))
                ]
                | inr (at, same) ↦ elim (get_elem?-snoc_cases st.states p r m r_at) [
                  | inl r_old ↦
                      absurd (clash m r m_pos r_old (sym e ∙ ap (λ x. x.items) (sym same)))
                  | inr (at', same') ↦ at ∙ sym at'
                ]
              ];
        }

  pub get_items-Got :
      (s : ℕ) (items : List ℕ) (st : States) (got : ℕ × States)
      → IsStore g st
      → Behind g s items
      → Rising 0 g.nitems items
      → Reached g items
      → get_items g s items st ≡ done got
      → Got g s items st got
  unfolding get_items
  get_items-Got s [] st got ok behind rising made_of e = elim behind [ ]
  get_items-Got s (key ∷ items) st got ok behind rising made_of e =
      elim (Bool-cases (is_item g key)) [
        | inr out ↦ let clash : abort ≡ done got = rw out at e in absurd cc
        | inl inside ↦ elim (Search-chain (key ∷ items) (get_or st.state_set key [])) [
          | hit sp found m same ↦
              let (pos, at) = ok.listed key sp m in
              subst (λ x. Got g s (key ∷ items) st x) (done-injective (rw (inside, found) at e))
                (record {
                  store = ok;
                  extends = λ n p h. h;
                  state = record {
                    core = sp;
                    at = at;
                    same_items = same;
                    symbol_in =
                        Behind-same g sp.accessing_symbol s (key ∷ items)
                          (subst (λ xs. Behind g sp.accessing_symbol xs) same
                            (ok.entered sp.number sp pos at))
                          behind;
                    later = pos;
                  };
                })
          | miss found fresh ↦ elim (NewState-cases s (key ∷ items) st) [
            | too_many full made ↦
                let clash : abort ≡ done got = rw (inside, found, made) at e in absurd cc
            | room free made ↦
                let begun = ok.started in
                let counted = ok.count in
                subst (λ x. Got g s (key ∷ items) st x)
                  (done-injective (rw (inside, found, made) at e))
                  (record {
                    store =
                        with_state-IsStore s key items st ok free
                          (ltb→lt key g.nitems
                            (both_true (leb key maxshort) (ltb key g.nitems) inside).1)
                          behind rising made_of fresh;
                    extends = λ n p h. get_elem?-append_left st.states _ n p h;
                    state = record {
                      core = new_core st s (key ∷ items);
                      at = p_at s key items st ok;
                      same_items = refl;
                      symbol_in = refl;
                      later = omega arith;
                    };
                  })
          ]
        ]
      ]

-- get_state ends, with a state, or where there are too many states and none of them is the wanted one.
pub get_items_cases :
    (g : Grammar) (s : ℕ) (items : List ℕ) (st : States)
    → g.nitems ≤ maxshort
    → IsStore g st
    → Behind g s items
    → Rising 0 g.nitems items
    → ((get_items g s items st ≡ abort) × (maxshort ≤ st.nstates) × Missing st items)
      ⊎ ((got : ℕ × States) × (get_items g s items st ≡ done got))
unfolding get_items
get_items_cases g s [] st short ok behind rising = elim behind [ ]
get_items_cases g s (key ∷ items) st short ok behind (low, high, rising) =
    elim (Bool-cases (is_item g key)) [
      | inr out ↦ absurd (ground (arith, out, high, short))
      | inl inside ↦ elim (Search-chain (key ∷ items) (get_or st.state_set key [])) [
        | hit sp found m same ↦ inr ((sp.number, st), rw (inside, found) refl)
        | miss found fresh ↦ elim (NewState-cases s (key ∷ items) st) [
          | too_many full made ↦
              inl (rw (inside, found, made) refl, full, Missing-of g s key items st ok fresh)
          | room free made ↦
              inr ((st.nstates, with_state st s key items), rw (inside, found, made) refl)
        ]
      ]
    ]
