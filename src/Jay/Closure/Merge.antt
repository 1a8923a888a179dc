-- ===== src/Jay/Closure/Merge.antt =====
-- The merge of the predicted items into the nucleus: which items come out.
use llc.Common.{
  ℕ, zero, suc, ◌+◌, ◌-◌, ◌%◌, ◌≤◌, ◌<◌, ◌≡◌, ◌≢◌, ◌⊎◌, ◌↔◌, inl, inr, sym, ap, subst, ◌∙◌, arith,
}
use llc.Common.{
  true, false, List, [], ◌∷◌, ◌++◌, Among, Among-append_left, Among-append_right, Among-append,
  Bool-cases, ltb, ◌==◌, ==_refl, ==_ne, if◌then◌else◌,
}
use native.Mathlib.Decide.{dec_lt, ℕ_discrete}
use llc.Common.Bits.{test_bit}
use llc.Jay.Bits.{bit, bits_per_word, bit-word, bit-behind, test_bit-zero_word}
use llc.Jay.Grammar.{Grammar}
use llc.Jay.Closure.{Merged, copy_below, skip_same, merge_item, bit_loop, word_loop}

-- An item is among those appended or those left.
abbrev pub In : ℕ → Merged → Type 0
In x m = Among x m.0 ⊎ Among x m.1

copy_below-In : (x itemno : ℕ) (csp : List ℕ) → In x (copy_below itemno csp) ↔ Among x csp
unfolding copy_below
copy_below-In x itemno [] = (λ m. elim m [ inl e ↦ e | inr e ↦ e ], λ m. inl m)
copy_below-In x itemno (item ∷ csp) = elim (Bool-cases (ltb item itemno)) [
  | inl e ↦
      let (down, up) = copy_below-In x itemno csp in
      rw e (
        λ m. elim m [
          | inl (inl here) ↦ inl here
          | inl (inr c) ↦ inr (down (inl c))
          | inr r ↦ inr (down (inr r))
        ],
        λ m. elim m [
          | inl here ↦ inl (inl here)
          | inr c ↦ elim (up c) [ inl l ↦ inl (inr l) | inr r ↦ inr r ]
        ],
      )
  | inr e ↦ rw e (λ m. elim m [ inl none ↦ absurd none | inr r ↦ r ], λ m. inr m)
]

skip_same-In :
    (x itemno : ℕ) (csp : List ℕ) → Among x csp → (itemno ≡ x) ⊎ Among x (skip_same itemno csp)
unfolding skip_same
skip_same-In x itemno [] m = inr m
skip_same-In x itemno (item ∷ csp) m = elim (ℕ_discrete item itemno) [
  | yes e ↦ elim m [
    | inl here ↦ inl (sym e ∙ here)
    | inr c ↦ elim (skip_same-In x itemno csp c) [
      | inl same ↦ inl same
      | inr r ↦ inr (rw (e, ==_refl itemno) r)
    ]
  ]
  | no ne ↦ inr (rw (==_ne item itemno ne) m)
]

skip_same-Among : (x itemno : ℕ) (csp : List ℕ) → Among x (skip_same itemno csp) → Among x csp
unfolding skip_same
skip_same-Among x itemno [] m = m
skip_same-Among x itemno (item ∷ csp) m = elim (ℕ_discrete item itemno) [
  | yes e ↦ inr (skip_same-Among x itemno csp (rw (e, ==_refl itemno) at m))
  | no ne ↦ rw (==_ne item itemno ne) at m
]

-- A merged item is one that was there, or the new one.
merge_item-In :
    (x itemno : ℕ) (csp : List ℕ) → In x (merge_item itemno csp) ↔ ((itemno ≡ x) ⊎ Among x csp)
unfolding merge_item
merge_item-In x itemno csp =
    let (copied, rest) = copy_below itemno csp in
    let (down, up) = copy_below-In x itemno csp in
    (
      λ m. elim m [
        | inl a ↦ elim (Among-append x copied (itemno ∷ []) a) [
          | inl c ↦ inr (down (inl c))
          | inr (inl here) ↦ inl here
          | inr (inr none) ↦ absurd none
        ]
        | inr r ↦ inr (down (inr (skip_same-Among x itemno rest r)))
      ],
      λ m. elim m [
        | inl here ↦ inl (Among-append_right x copied (itemno ∷ []) (inl here))
        | inr c ↦ elim (up c) [
          | inl l ↦ inl (Among-append_left x copied (itemno ∷ []) l)
          | inr r ↦ elim (skip_same-In x itemno rest r) [
            | inl same ↦ inl (Among-append_right x copied (itemno ∷ []) (inl same))
            | inr s ↦ inr s
          ]
        ]
      ],
    )

behind-In :
    (x : ℕ) (items : List ℕ) (later : Merged)
    → In x (items ++ later.0, later.1) ↔ (Among x items ⊎ In x later)
behind-In x items later = (
  λ m. elim m [
    | inl a ↦ elim (Among-append x items later.0 a) [ inl l ↦ inl l | inr r ↦ inr (inl r) ]
    | inr r ↦ inr (inr r)
  ],
  λ m. elim m [
    | inl l ↦ inl (Among-append_left x items later.0 l)
    | inr (inl r) ↦ inl (Among-append_right x items later.0 r)
    | inr (inr r) ↦ inr r
  ],
)

-- The first item of a rule whose bit, from `i` on, is set in the word.
abbrev Marked : Grammar → ℕ → ℕ → ℕ → ℕ → ℕ → Type 0
Marked g ruleno word left i x =
    (k : ℕ) × (i ≤ k) × (k < i + left) × (test_bit word k ≡ true) × (g.rrhs (ruleno + k) ≡ x)

bit_loop_sound :
    (g : Grammar) (ruleno word left i x : ℕ) (csp : List ℕ)
    → In x (bit_loop g ruleno word left i csp)
    → Marked g ruleno word left i x ⊎ Among x csp
unfolding bit_loop
bit_loop_sound g ruleno word zero i x csp m = elim m [ inl none ↦ absurd none | inr c ↦ inr c ]
bit_loop_sound g ruleno word (suc left) i x csp m = elim (Bool-cases (test_bit word i)) [
  | inl on ↦
      let made = merge_item (g.rrhs (ruleno + i)) csp in
      let merged = merge_item-In x (g.rrhs (ruleno + i)) csp in
      elim ((behind-In x made.0 (bit_loop g ruleno word left (i + 1) made.1)).0 (rw on at m)) [
        | inl a ↦ elim (merged.0 (inl a)) [
          | inl here ↦ inl (i, omega arith, omega arith, on, here)
          | inr c ↦ inr c
        ]
        | inr l ↦ elim (bit_loop_sound g ruleno word left (i + 1) x made.1 l) [
          | inl (k, lo, hi, on', e) ↦ inl (k, omega arith, omega arith, on', e)
          | inr r ↦ elim (merged.0 (inr r)) [
            | inl here ↦ inl (i, omega arith, omega arith, on, here)
            | inr c ↦ inr c
          ]
        ]
      ]
  | inr off ↦ elim (bit_loop_sound g ruleno word left (i + 1) x csp (rw off at m)) [
    | inl (k, lo, hi, on', e) ↦ inl (k, omega arith, omega arith, on', e)
    | inr c ↦ inr c
  ]
]

bit_loop-full :
    (g : Grammar) (ruleno word left i x : ℕ) (csp : List ℕ)
    → Marked g ruleno word left i x ⊎ Among x csp
    → In x (bit_loop g ruleno word left i csp)
unfolding bit_loop
bit_loop-full g ruleno word zero i x csp (inl (k, lo, hi, on, e)) = absurd (omega arith)
bit_loop-full g ruleno word zero i x csp (inr c) = inr c
bit_loop-full g ruleno word (suc left) i x csp m = elim (Bool-cases (test_bit word i)) [
  | inl on ↦
      let made = merge_item (g.rrhs (ruleno + i)) csp in
      let later = bit_loop g ruleno word left (i + 1) made.1 in
      let merged : ((g.rrhs (ruleno + i) ≡ x) ⊎ Among x csp) → In x (made.0 ++ later.0, later.1) =
        λ c. elim ((merge_item-In x (g.rrhs (ruleno + i)) csp).1 c) [
          | inl a ↦ (behind-In x made.0 later).1 (inl a)
          | inr r ↦
              (behind-In x made.0 later).1
                (inr (bit_loop-full g ruleno word left (i + 1) x made.1 (inr r)))
        ] in
      rw on (elim m [
        | inl (k, lo, hi, on', e) ↦ elim (ℕ_discrete k i) [
          | yes same ↦ merged (inl (rw same at e))
          | no apart ↦ (behind-In x made.0 later).1 (
              inr (
                bit_loop-full g ruleno word left (i + 1) x made.1
                  (inl (k, omega arith, omega arith, on', e))))
        ]
        | inr c ↦ merged (inr c)
      ])
  | inr off ↦ rw off (
      bit_loop-full g ruleno word left (i + 1) x csp (elim m [
        | inl (k, lo, hi, on', e) ↦
            let ne : k ≢ i =
              λ same. let clash : false ≡ true = sym off ∙ (rw same at on') in absurd cc in
            inl (k, omega arith, omega arith, on', e)
        | inr c ↦ inr c
      ]))
]

-- The first item of a rule in the set.
abbrev pub Picks : Grammar → ℕ → List ℕ → ℕ → Type 0
Picks g ruleno rules x = (r : ℕ) × (bit rules r ≡ true) × (g.rrhs (ruleno + r) ≡ x)

abbrev first_word : Grammar → ℕ → ℕ → List ℕ → Merged
first_word g ruleno word csp =
    if word == 0 then ([], csp) else bit_loop g ruleno word bits_per_word 0 csp

no_bits : (g : Grammar) (ruleno x : ℕ) → Marked g ruleno 0 32 0 x → ⊥
no_bits g ruleno x (k, lo, hi, on, e) =
    let clash : false ≡ true = sym (test_bit-zero_word k) ∙ on in cc

first_word_sound :
    (g : Grammar) (ruleno word x : ℕ) (csp : List ℕ)
    → In x (first_word g ruleno word csp)
    → Marked g ruleno word 32 0 x ⊎ Among x csp
first_word_sound g ruleno word x csp m = elim (ℕ_discrete word 0) [
  | yes e ↦ elim (rw e at m) [ inl none ↦ absurd none | inr c ↦ inr c ]
  | no ne ↦ bit_loop_sound g ruleno word 32 0 x csp (rw (==_ne word 0 ne) at m)
]

first_word-full :
    (g : Grammar) (ruleno word x : ℕ) (csp : List ℕ)
    → Marked g ruleno word 32 0 x ⊎ Among x csp
    → In x (first_word g ruleno word csp)
first_word-full g ruleno word x csp m = elim (ℕ_discrete word 0) [
  | yes e ↦ rw e (elim m [
    | inl marked ↦ absurd (no_bits g ruleno x (subst (λ w. Marked g ruleno w 32 0 x) e marked))
    | inr c ↦ inr c
  ])
  | no ne ↦ rw (==_ne word 0 ne) (bit_loop-full g ruleno word 32 0 x csp m)
]

none_picked : (g : Grammar) (ruleno x : ℕ) → Picks g ruleno [] x → ⊥
unfolding bit
none_picked g ruleno x (r, on, e) =
    let clash : false ≡ true = sym (test_bit-zero_word (r % 32)) ∙ on in cc

Picks-first :
    (g : Grammar) (ruleno word : ℕ) (rules : List ℕ) (x : ℕ)
    → Marked g ruleno word 32 0 x
    → Picks g ruleno (word ∷ rules) x
Picks-first g ruleno word rules x (k, lo, hi, on, e) =
    (k, bit-word word rules k (omega arith) ∙ on, e)

Picks-later :
    (g : Grammar) (ruleno word : ℕ) (rules : List ℕ) (x : ℕ)
    → Picks g (ruleno + 32) rules x
    → Picks g ruleno (word ∷ rules) x
Picks-later g ruleno word rules x (r, on, e) =
    let shift : ruleno + (r + 32) ≡ ruleno + 32 + r = omega arith in
    (r + 32, bit-behind word rules r ∙ on, ap g.rrhs shift ∙ e)

Picks-cases :
    (g : Grammar) (ruleno word : ℕ) (rules : List ℕ) (x : ℕ)
    → Picks g ruleno (word ∷ rules) x
    → Marked g ruleno word 32 0 x ⊎ Picks g (ruleno + 32) rules x
Picks-cases g ruleno word rules x (r, on, e) = elim (dec_lt r 32) [
  | yes h ↦ inl (r, omega arith, omega arith, sym (bit-word word rules r h) ∙ on, e)
  | no h ↦
      let back : r - 32 + 32 ≡ r = omega arith in
      let shift : ruleno + 32 + (r - 32) ≡ ruleno + r = omega arith in
      inr (
        r - 32,
        sym (bit-behind word rules (r - 32)) ∙ ap (bit (word ∷ rules)) back ∙ on,
        ap g.rrhs shift ∙ e,
      )
]

-- The items that come out of the merge are those of the nucleus and the first items of the rules in
-- the set.
pub word_loop-In :
    (g : Grammar) (ruleno : ℕ) (rules : List ℕ) (x : ℕ) (csp : List ℕ)
    → In x (word_loop g ruleno rules csp) ↔ (Picks g ruleno rules x ⊎ Among x csp)
unfolding word_loop
word_loop-In g ruleno [] x csp = (
  λ m. elim m [ inl none ↦ absurd none | inr c ↦ inr c ],
  λ m. elim m [ inl p ↦ absurd (none_picked g ruleno x p) | inr c ↦ inr c ],
)
word_loop-In g ruleno (word ∷ rules) x csp =
    let first = first_word g ruleno word csp in
    let (down, up) = word_loop-In g (ruleno + 32) rules x first.1 in
    let (split, unsplit) = behind-In x first.0 (word_loop g (ruleno + 32) rules first.1) in
    let from_first : In x first → Picks g ruleno (word ∷ rules) x ⊎ Among x csp = λ m.
      elim (first_word_sound g ruleno word x csp m) [
        | inl marked ↦ inl (Picks-first g ruleno word rules x marked)
        | inr c ↦ inr c
      ] in
    let to_first : Marked g ruleno word 32 0 x ⊎ Among x csp
        → In x (
          first.0 ++ (word_loop g (ruleno + 32) rules first.1).0,
          (word_loop g (ruleno + 32) rules first.1).1,
        ) =
      λ m. elim (first_word-full g ruleno word x csp m) [
        | inl a ↦ unsplit (inl a)
        | inr r ↦ unsplit (inr (up (inr r)))
      ] in
    (
      λ m. elim (split m) [
        | inl a ↦ from_first (inl a)
        | inr l ↦ elim (down l) [
          | inl p ↦ inl (Picks-later g ruleno word rules x p)
          | inr r ↦ from_first (inr r)
        ]
      ],
      λ m. elim m [
        | inl p ↦ elim (Picks-cases g ruleno word rules x p) [
          | inl marked ↦ to_first (inl marked)
          | inr later ↦ unsplit (inr (up (inl later)))
        ]
        | inr c ↦ to_first (inr c)
      ],
    )
