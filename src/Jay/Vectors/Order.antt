-- ===== src/Jay/Vectors/Order.antt =====
-- sort_actions lists each vector that has entries, once.
use llc.Common.{ℕ, zero, suc, ◌+◌, ◌<◌, ◌≡◌, ◌≢◌, ◌⊎◌, inl, inr, refl, sym, subst, ◌∙◌, arith}
use llc.Common.{
  Bool, true, false, ◌&&◌, not, Bool-cases, List, [], ◌∷◌, ltb, ◌==◌, if◌then◌else◌, Among,
}
use mathlib.Core.List.{reverse_aux}
use native.Mathlib.Decide.{ℕ_discrete}
use llc.Jay.Vectors.{Vector, tally, insert_widest, order_loop, sorted}

abbrev pub Apart : List ℕ → Type 0
Apart [] = Unit
Apart (x ∷ xs) = ((y : ℕ) → Among y xs → x ≢ y) × Apart xs

-- `new` is the list with `i` put into it.
record Inserted (i : ℕ) (xs new : List ℕ) : Type 0 where
  members : (x : ℕ) → Among x new → (i ≡ x) ⊎ Among x xs
  itself : Among i new
  keeps : (x : ℕ) → Among x xs → Among x new
  apart : Apart xs → ((x : ℕ) → Among x xs → i ≢ x) → Apart new

Inserted-here : (i : ℕ) (xs : List ℕ) → Inserted i xs (i ∷ xs)
Inserted-here i xs = record {
  members = λ x m. m;
  itself = inl refl;
  keeps = λ x m. inr m;
  apart = λ apart off. (off, apart);
}

Inserted-behind : (i j : ℕ) (xs new : List ℕ) → Inserted i xs new → Inserted i (j ∷ xs) (j ∷ new)
Inserted-behind i j xs new h = record {
  members = λ x m. elim m [
    | inl e ↦ inr (inl e)
    | inr later ↦ elim (h.members x later) [ inl e ↦ inl e | inr old ↦ inr (inr old) ]
  ];
  itself = inr h.itself;
  keeps = λ x m. elim m [ inl e ↦ inl e | inr later ↦ inr (h.keeps x later) ];
  apart = λ (first, apart) off. (
    λ y m. elim (h.members y m) [ inl e ↦ λ e'. off j (inl refl) cc | inr old ↦ first y old ],
    h.apart apart (λ x m. off x (inr m)),
  );
}

either :
    (b c : Bool) (x y z : List ℕ) (P : List ℕ → Type 0)
    → P x
    → P y
    → P z
    → P (if b then x else if c then y else z)
either true c x y z P hx hy hz = hx
either false true x y z P hx hy hz = hy
either false false x y z P hx hy hz = hz

insert_widest-Inserted :
    (v : ℕ → Vector) (i : ℕ) (equal : Bool) (xs : List ℕ)
    → Inserted i xs (insert_widest v i equal xs)
unfolding insert_widest
insert_widest-Inserted v i equal [] = Inserted-here i []
insert_widest-Inserted v i equal (j ∷ xs) =
    either (not equal && ltb (v j).width (v i).width)
      ((v j).width == (v i).width && ltb (tally (v j)) (tally (v i))) _ _ _ (Inserted i (j ∷ xs))
      (Inserted-behind i j xs _ (insert_widest-Inserted v i false xs))
      (Inserted-behind i j xs _ (insert_widest-Inserted v i true xs)) (Inserted-here i (j ∷ xs))

-- `order` lists the vectors with entries before vector `i`, once.
record Lists (v : ℕ → Vector) (i : ℕ) (order : List ℕ) : Type 0 where
  apart : Apart order
  below : (x : ℕ) → Among x order → x < i
  all : (x : ℕ) → x < i → 0 < tally (v x) → Among x order

order_step-Lists :
    (v : ℕ → Vector) (i : ℕ) (order : List ℕ)
    → Lists v i order
    → Lists v (i + 1) (if ltb 0 (tally (v i)) then insert_widest v i false order else order)
order_step-Lists v i order h = elim (Bool-cases (ltb 0 (tally (v i)))) [
  | inr empty ↦ rw empty (record {
    apart = h.apart;
    below = λ x m. let lt = h.below x m in omega arith;
    all = λ x lt some_entry. elim (ℕ_discrete x i) [
      | no ne ↦ h.all x (omega arith) some_entry
      | yes same ↦
          let entry = subst (λ k. 0 < tally (v k)) same some_entry in
          absurd (ground (arith, entry, empty))
    ];
  })
  | inl some_entry ↦
      let new = insert_widest-Inserted v i false order in
      rw some_entry (record {
        apart = new.apart h.apart (λ x m e. let lt = h.below x m in absurd (omega arith));
        below = λ x m. elim (new.members x m) [
          | inl e ↦ omega (arith, e)
          | inr old ↦ let lt = h.below x old in omega arith
        ];
        all = λ x lt entry. elim (ℕ_discrete x i) [
          | no ne ↦ new.keeps x (h.all x (omega arith) entry)
          | yes same ↦ subst (λ k. Among k (insert_widest v i false order)) (sym same) new.itself
        ];
      })
]

order_loop-Lists :
    (v : ℕ → Vector) (left i : ℕ) (order : List ℕ)
    → Lists v i order
    → Lists v (i + left) (order_loop v left i order)
unfolding order_loop
order_loop-Lists v zero i order h =
    let e : i ≡ i + 0 = omega arith in subst (λ k. Lists v k order) e h
order_loop-Lists v (suc left) i order h =
    let e : i + 1 + left ≡ i + suc left = omega arith in
    subst (λ k. Lists v k (order_loop v (suc left) i order)) e
      (order_loop-Lists v left (i + 1) _ (order_step-Lists v i order h))

-- The elements of the reverse of `xs` before `ys`.
record Reversed (xs ys new : List ℕ) : Type 0 where
  apart : Apart new
  from : (x : ℕ) → Among x new → Among x xs ⊎ Among x ys
  to : (x : ℕ) → Among x xs ⊎ Among x ys → Among x new

reverse_aux-Reversed :
    (xs ys : List ℕ)
    → Apart xs
    → Apart ys
    → ((x y : ℕ) → Among x xs → Among y ys → x ≢ y)
    → Reversed xs ys (reverse_aux xs ys)
reverse_aux-Reversed [] ys apart apart' off = record {
  apart = apart';
  from = λ x m. inr m;
  to = λ x m. elim m [ inl none_left ↦ elim none_left [ ] | inr m' ↦ m' ];
}
reverse_aux-Reversed (x ∷ xs) ys (first, apart) apart' off =
    let rest =
      reverse_aux-Reversed xs (x ∷ ys) apart (λ y m. off x y (inl refl) m, apart')
        (λ y z m m' e. elim m' [
          | inl same ↦ first y m (same ∙ sym e)
          | inr behind ↦ off y z (inr m) behind e
        ]) in
    record {
      apart = rest.apart;
      from = λ y m. elim (rest.from y m) [
        | inl later ↦ inl (inr later)
        | inr (inl e) ↦ inl (inl e)
        | inr (inr m') ↦ inr m'
      ];
      to = λ y m. elim m [
        | inl (inl e) ↦ rest.to y (inr (inl e))
        | inl (inr later) ↦ rest.to y (inl later)
        | inr m' ↦ rest.to y (inr (inr m'))
      ];
    }

-- order lists exactly the vectors below nvectors that have entries, each of them once.
pub sorted_lem :
    (v : ℕ → Vector) (nvectors : ℕ)
    → Apart (sorted v nvectors)
      × ((x : ℕ) → Among x (sorted v nvectors) → x < nvectors)
      × ((x : ℕ) → x < nvectors → 0 < tally (v x) → Among x (sorted v nvectors))
unfolding sorted
sorted_lem v nvectors =
    let listed =
      order_loop-Lists v nvectors 0 []
        (record { apart = tt; below = λ x m. elim m [ ]; all = λ x lt e. absurd (omega arith) }) in
    let turned =
      reverse_aux-Reversed (order_loop v nvectors 0 []) [] listed.apart tt
        (λ x y m m' e. elim m' [ ]) in
    (
      turned.apart,
      λ x m. elim (turned.from x m) [
        | inl m' ↦ let lt = listed.below x m' in omega arith
        | inr none_left ↦ elim none_left [ ]
      ],
      λ x lt entry. turned.to x (inl (listed.all x (omega arith) entry)),
    )
