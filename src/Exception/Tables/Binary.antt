-- ===== src/Exception/Tables/Binary.antt =====
-- The binary search on any table, and on one whose methods stand in order.
use llc.Common.{
  ℕ, zero, suc, ◌+◌, ◌-◌, ◌^◌, ◌≤◌, ◌<◌, ◌≡◌, ◌≢◌, ◌⊎◌, inl, inr, refl, sym, ap, ◌∙◌, arith,
}
use llc.Common.{
  true, Option, none, some, List, length, get_elem?, get_elem?-lt, get_elem?-append_left, [], ◌∷◌,
}
use llc.Common.{done, fault, if◌then◌else◌}
use llc.Exception.Tables.{
  UnwindRecord, Chop, outside, downwards, upwards, stop, terminator, record_at, chop, middle,
  holds_closed, binary_search,
}

pub ℕ_lt-cases : (a b : ℕ) → (a < b) ⊎ ((b < a) ⊎ (a ≡ b))
ℕ_lt-cases a b = omega arith

-- The methods do not wrap, and each ends at or before the start of those behind it.
pub record IsOrdered (table : List UnwindRecord) : Type 0 where
  pub fits :
      (i : ℕ) (a : UnwindRecord)
      → get_elem? table i ≡ some a
      → a.method_start + a.method_length < 2 ^ 64
  pub before :
      (i j : ℕ) (a b : UnwindRecord)
      → i < j
      → get_elem? table i ≡ some a
      → get_elem? table j ≡ some b
      → a.method_start + a.method_length ≤ b.method_start

pub record_at-inside :
    (table : List UnwindRecord) (i : ℕ) (m : UnwindRecord)
    → get_elem? table i ≡ some m
    → record_at table i ≡ some m
record_at-inside table i m e = get_elem?-append_left table (terminator ∷ []) i m e

-- What a round tells about the record that it looks at.
record Stops (rip : ℕ) (table : List UnwindRecord) (p r : ℕ) (m : UnwindRecord) : Type 0 where
  at_r : record_at table r ≡ some m
  holds : holds_closed rip m ≡ true

chop_stop :
    (rip : ℕ) (table : List UnwindRecord) (p r : ℕ) (m : UnwindRecord)
    → chop rip table p r ≡ stop (some m)
    → Stops rip table p r m
unfolding chop
chop_stop rip table p r m e = ground arith

-- What is found is a record of the table, or its end, between `p` and `q` whose closed range holds the address.
abbrev Sound : ℕ → List UnwindRecord → ℕ → ℕ → UnwindRecord → Type 0
Sound rip table p q m =
    (i : ℕ) × (record_at table i ≡ some m) × (p ≤ i) × (i ≤ q) × (holds_closed rip m ≡ true)

Chop-cases :
    (c : Chop)
    → (c ≡ outside)
      ⊎ ((c ≡ downwards) ⊎ ((c ≡ upwards) ⊎ ((o : Option UnwindRecord) × (c ≡ stop o))))
Chop-cases outside = inl refl
Chop-cases downwards = inr (inl refl)
Chop-cases upwards = inr (inr (inl refl))
Chop-cases (stop o) = inr (inr (inr (o, refl)))

pub binary_search-Sound :
    (fuel rip : ℕ) (table : List UnwindRecord) (p q : ℕ) (m : UnwindRecord)
    → p ≤ q
    → binary_search fuel rip table p q ≡ done (some m)
    → Sound rip table p q m
unfolding binary_search
binary_search-Sound zero rip table p q m h e = cc
binary_search-Sound (suc fuel) rip table p q m h e =
    elim (Chop-cases (chop rip table p (middle p q))) [
      | inl out ↦ cc (rw (binary_search, out) at e)
      | inr (inl down) ↦
          let (i, at_i, lo, hi, holds) =
            binary_search-Sound fuel rip table p (middle p q) m (omega arith)
              (ground (arith, down, e)) in
          (i, at_i, lo, omega arith, holds)
      | inr (inr (inl up)) ↦
          let (i, at_i, lo, hi, holds) =
            binary_search-Sound fuel rip table (middle p q) q m (omega arith)
              (ground (arith, up, e)) in
          (i, at_i, omega arith, hi, holds)
      | inr (inr (inr (found, e'))) ↦
          let s : Stops rip table p (middle p q) m =
            chop_stop rip table p (middle p q) m (ground (arith, e, e')) in
          (middle p q, s.at_r, omega arith, omega arith, s.holds)
    ]

-- A round that goes on looked behind the lower end.
chop-moves :
    (rip : ℕ) (table : List UnwindRecord) (p r : ℕ)
    → (chop rip table p r ≡ downwards) ⊎ (chop rip table p r ≡ upwards)
    → r ≢ p
unfolding chop
chop-moves rip table p r (inl e) same = ground arith
chop-moves rip table p r (inr e) same = ground arith

-- The search ends or faults, on any table.
pub binary_search-ends :
    (fuel rip : ℕ) (table : List UnwindRecord) (p q : ℕ)
    → q < p + fuel
    → 0 < fuel
    → (binary_search fuel rip table p q ≡ fault)
      ⊎ ((found : Option UnwindRecord) × (binary_search fuel rip table p q ≡ done found))
unfolding binary_search
binary_search-ends zero rip table p q h pos = absurd (omega arith)
binary_search-ends (suc fuel) rip table p q h pos =
    elim (Chop-cases (chop rip table p (middle p q))) [
      | inl out ↦ inl (ground (arith, out))
      | inr (inl down) ↦
          let lt = chop-moves rip table p (middle p q) (inl down) in
          elim (binary_search-ends fuel rip table p (middle p q) (omega arith) (omega arith)) [
            | inl faults ↦ inl (ground (arith, down, faults))
            | inr (found, e) ↦ inr (found, ground (arith, down, e))
          ]
      | inr (inr (inl up)) ↦
          let lt = chop-moves rip table p (middle p q) (inr up) in
          elim (binary_search-ends fuel rip table (middle p q) q (omega arith) (omega arith)) [
            | inl faults ↦ inl (ground (arith, up, faults))
            | inr (found, e) ↦ inr (found, ground (arith, up, e))
          ]
      | inr (inr (inr (found, e))) ↦ inr (found, ground (arith, e))
    ]

-- One round, by what it makes of the record in the middle.
module _ (fuel rip : ℕ) (table : List UnwindRecord) (p q : ℕ) where
  pub round_down :
      chop rip table p (middle p q) ≡ downwards
      → binary_search (suc fuel) rip table p q ≡ binary_search fuel rip table p (middle p q)
  unfolding binary_search
  round_down e = ground (arith, e)

  pub round_up :
      chop rip table p (middle p q) ≡ upwards
      → binary_search (suc fuel) rip table p q ≡ binary_search fuel rip table (middle p q) q
  unfolding binary_search
  round_up e = ground (arith, e)

  pub round_stop :
      (found : Option UnwindRecord)
      → chop rip table p (middle p q) ≡ stop found
      → binary_search (suc fuel) rip table p q ≡ done found
  unfolding binary_search
  round_stop found e = ground (arith, e)

-- A round at the record that holds the address strictly, or beside it.
module _ (rip : ℕ) (table : List UnwindRecord) (ordered : IsOrdered table) (k : ℕ)
    (a : UnwindRecord) (at_k : get_elem? table k ≡ some a) (after : a.method_start < rip)
    (before_end : rip < a.method_start + a.method_length) where
  open ordered use {fits, before}

  chop_at : (p : ℕ) → chop rip table p k ≡ stop (some a)
  unfolding chop
  chop_at p = ground (arith, record_at-inside table k a at_k, fits k a at_k)

  chop_above :
      (p r : ℕ) (m : UnwindRecord)
      → get_elem? table r ≡ some m
      → k < r
      → p < r
      → chop rip table p r ≡ downwards
  unfolding chop
  chop_above p r m at_r h hp =
      ground (arith, record_at-inside table r m at_r, before k r a m h at_k at_r)

  pub chop_below :
      (p r : ℕ) (m : UnwindRecord)
      → get_elem? table r ≡ some m
      → r < k
      → p < r
      → chop rip table p r ≡ upwards
  unfolding chop
  chop_below p r m at_r h hp =
      ground (arith, record_at-inside table r m at_r, fits r m at_r, before r k m a h at_r at_k)

  -- The record is between the ends, and is not the upper end unless that is the lower one too.
  abbrev Between : ℕ → ℕ → Type 0
  Between p q = (p ≤ k) × ((k < q) ⊎ ((k ≡ p) × (p ≡ q)))

  pub binary_search-finds :
      (fuel p q : ℕ)
      → q < length table
      → q - p < fuel
      → Between p q
      → binary_search fuel rip table p q ≡ done (some a)
  binary_search-finds zero p q inside enough between = absurd (omega arith)
  binary_search-finds (suc fuel) p q inside enough between =
      let r = middle p q in
      let (m, at_r) = get_elem?-lt table r (omega arith) in
      elim (ℕ_lt-cases k r) [
        | inl below ↦
            round_down fuel rip table p q (chop_above p r m at_r below (omega arith))
            ∙ binary_search-finds fuel p r (omega arith) (omega arith) (omega arith)
        | inr (inl above) ↦ elim (ℕ_lt-cases p r) [
          | inl inner ↦
              round_up fuel rip table p q (chop_below p r m at_r above inner)
              ∙ binary_search-finds fuel r q (omega arith) (omega arith) (omega arith)
          | inr rest ↦ absurd (omega arith)
        ]
        | inr (inr same) ↦
            round_stop fuel rip table p q (some a) (ap (chop rip table p) (sym same) ∙ chop_at p)
      ]

module _ (rip : ℕ) (table : List UnwindRecord) where
  chop-inside : (p r : ℕ) → r < length table → chop rip table p r ≢ outside
  unfolding chop
  chop-inside p r h e =
      let (m, at_r) = get_elem?-lt table r h in ground (arith, record_at-inside table r m at_r)

  chop-first :
      (p : ℕ) (m : UnwindRecord)
      → get_elem? table p ≡ some m
      → chop rip table p p ≡ stop (if holds_closed rip m then some m else none)
  unfolding chop
  chop-first p m e = ground (arith, record_at-inside table p m e)

  -- On any table, in order or not, a search between two of its indices ends with an answer.
  pub binary_search-total :
      (fuel p q : ℕ)
      → p ≤ q
      → q < length table
      → q - p < fuel
      → (found : Option UnwindRecord) × (binary_search fuel rip table p q ≡ done found)
  binary_search-total zero p q h inside enough = absurd (omega arith)
  binary_search-total (suc fuel) p q h inside enough = elim (ℕ_lt-cases p (middle p q)) [
    | inl inner ↦ elim (Chop-cases (chop rip table p (middle p q))) [
      | inl out ↦ absurd (chop-inside p (middle p q) (omega arith) out)
      | inr (inl down) ↦
          let (found, e) =
            binary_search-total fuel p (middle p q) (omega arith) (omega arith) (omega arith) in
          (found, round_down fuel rip table p q down ∙ e)
      | inr (inr (inl up)) ↦
          let (found, e) =
            binary_search-total fuel (middle p q) q (omega arith) (omega arith) (omega arith) in
          (found, round_up fuel rip table p q up ∙ e)
      | inr (inr (inr (found, e))) ↦ (found, round_stop fuel rip table p q found e)
    ]
    | inr rest ↦
        let (m, at_p) = get_elem?-lt table p (omega arith) in
        let same : middle p q ≡ p = omega arith in
        (
          if holds_closed rip m then some m else none,
          round_stop fuel rip table p q _ (ap (chop rip table p) same ∙ chop-first p m at_p),
        )
  ]
