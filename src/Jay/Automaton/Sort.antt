-- ===== src/Jay/Automaton/Sort.antt =====
-- append_states sorts the symbols of the shifts.
use llc.Common.{ℕ, ◌+◌, ◌≤◌, ◌<◌, ◌≡◌, ◌↔◌, ◌⊎◌, inl, inr, refl, sym, arith}
use llc.Common.{List, [], ◌∷◌, Among, ltb, Bool-cases}
use mathlib.Core.List.{reverse_aux}
use llc.Jay.Lr0.Fill.{Distinct}
use llc.Jay.Automaton.{insert_symbol, sort_loop, sort_symbols}

-- The numbers of a list grow, from `lo` on.
abbrev pub Growing : ℕ → List ℕ → Type 0
Growing lo [] = Unit
Growing lo (x ∷ xs) = (lo ≤ x) × Growing (x + 1) xs

-- They fall, from below `hi` on.
abbrev Falling : ℕ → List ℕ → Type 0
Falling hi [] = Unit
Falling hi (x ∷ xs) = (x < hi) × Falling x xs

Among-insert_symbol :
    (s x : ℕ) (before : List ℕ) → Among x (insert_symbol s before) ↔ ((s ≡ x) ⊎ Among x before)
unfolding insert_symbol
Among-insert_symbol s x [] = (λ m. m, λ m. m)
Among-insert_symbol s x (t ∷ before) =
    let (down, up) = Among-insert_symbol s x before in
    elim (Bool-cases (ltb s t)) [
      | inl less ↦ rw less (
        λ m. elim m [
          | inl here ↦ inr (inl here)
          | inr later ↦ elim (down later) [ inl e ↦ inl e | inr m' ↦ inr (inr m') ]
        ],
        λ m. elim m [
          | inl e ↦ inr (up (inl e))
          | inr (inl here) ↦ inl here
          | inr (inr m') ↦ inr (up (inr m'))
        ],
      )
      | inr not_less ↦ rw not_less (λ m. m, λ m. m)
    ]

insert_symbol-Falling :
    (s hi : ℕ) (before : List ℕ)
    → s < hi
    → Falling hi before
    → (Among s before → ⊥)
    → Falling hi (insert_symbol s before)
unfolding insert_symbol
insert_symbol-Falling s hi [] lt falling new = (lt, tt)
insert_symbol-Falling s hi (t ∷ before) lt (t_lt, falling) new = elim (Bool-cases (ltb s t)) [
  | inl less ↦
      rw less
        (t_lt, insert_symbol-Falling s t before (ground (arith, less)) falling (λ m. new (inr m)))
  | inr not_less ↦
      let apart : t ≡ s → ⊥ = λ e. new (inl e) in
      rw not_less (lt, (ground (arith, not_less, apart), falling))
]

-- The numbers of a list are below `hi`.
abbrev pub AllBelow : ℕ → List ℕ → Type 0
AllBelow hi [] = Unit
AllBelow hi (x ∷ xs) = (x < hi) × AllBelow hi xs

sort_loop_lem :
    (hi : ℕ) (before symbols : List ℕ)
    → Falling hi before
    → Distinct symbols
    → AllBelow hi symbols
    → ((x : ℕ) → Among x before → Among x symbols → ⊥)
    → Falling hi (sort_loop before symbols)
      × ((x : ℕ) → Among x (sort_loop before symbols) ↔ (Among x before ⊎ Among x symbols))
unfolding sort_loop
sort_loop_lem hi before [] falling distinct below apart =
    (falling, λ x. (λ m. inl m, λ m. elim m [ inl m' ↦ m' | inr none ↦ elim none [ ] ]))
sort_loop_lem hi before (s ∷ symbols) falling (out, distinct) (lt, below) apart =
    let (sorted, members) =
      sort_loop_lem hi (insert_symbol s before) symbols
        (insert_symbol-Falling s hi before lt falling (λ m. apart s m (inl refl))) distinct below
        (λ x m m'. elim ((Among-insert_symbol s x before).0 m) [
          | inl e ↦ out (rw (sym e) at m')
          | inr old ↦ apart x old (inr m')
        ]) in
    (
      sorted,
      λ x. (
        λ m. elim ((members x).0 m) [
          | inl m' ↦ elim ((Among-insert_symbol s x before).0 m') [
            | inl e ↦ inr (inl e)
            | inr old ↦ inl old
          ]
          | inr later ↦ inr (inr later)
        ],
        λ m. (members x).1 (elim m [
          | inl old ↦ inl ((Among-insert_symbol s x before).1 (inr old))
          | inr (inl e) ↦ inl ((Among-insert_symbol s x before).1 (inl e))
          | inr (inr later) ↦ inr later
        ]),
      ),
    )

pub Growing-weaken : (lo lo' : ℕ) (xs : List ℕ) → lo' ≤ lo → Growing lo xs → Growing lo' xs
Growing-weaken lo lo' [] le g = tt
Growing-weaken lo lo' (x ∷ xs) le (h, g) = (omega arith, g)

reverse_aux_lem :
    (hi : ℕ) (xs ys : List ℕ)
    → Falling hi xs
    → Growing hi ys
    → Growing 0 (reverse_aux xs ys)
      × ((x : ℕ) → Among x (reverse_aux xs ys) ↔ (Among x xs ⊎ Among x ys))
reverse_aux_lem hi [] ys falling growing = (
  Growing-weaken hi 0 ys (omega arith) growing,
  λ x. (λ m. inr m, λ m. elim m [ inl none ↦ elim none [ ] | inr m' ↦ m' ]),
)
reverse_aux_lem hi (x ∷ xs) ys (lt, falling) growing =
    let (grown, members) =
      reverse_aux_lem x xs (x ∷ ys) falling
        (omega arith, Growing-weaken hi (x + 1) ys (omega arith) growing) in
    (
      grown,
      λ y. (
        λ m. elim ((members y).0 m) [
          | inl m' ↦ inl (inr m')
          | inr (inl e) ↦ inl (inl e)
          | inr (inr m') ↦ inr m'
        ],
        λ m.
            (members y).1 (elim m [
              | inl (inl e) ↦ inr (inl e)
              | inl (inr m') ↦ inl m'
              | inr m' ↦ inr (inr m')
            ]),
      ),
    )

-- Different symbols come out in order, and they are the same ones.
pub sort_symbols_lem :
    (hi : ℕ) (symbols : List ℕ)
    → Distinct symbols
    → AllBelow hi symbols
    → Growing 0 (sort_symbols symbols)
      × ((x : ℕ) → Among x (sort_symbols symbols) ↔ Among x symbols)
unfolding sort_symbols
sort_symbols_lem hi symbols distinct below =
    let (falling, members) = sort_loop_lem hi [] symbols tt distinct below (λ x m m'. elim m [ ]) in
    let (growing, members') = reverse_aux_lem hi (sort_loop [] symbols) [] falling tt in
    (
      growing,
      λ x. (
        λ m. elim ((members' x).0 m) [
          | inl m' ↦ elim ((members x).0 m') [ inl none ↦ elim none [ ] | inr m'' ↦ m'' ]
          | inr none ↦ elim none [ ]
        ],
        λ m. (members' x).1 (inl ((members x).1 (inr m))),
      ),
    )
