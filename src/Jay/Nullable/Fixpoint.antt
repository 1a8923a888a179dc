-- ===== src/Jay/Nullable/Fixpoint.antt =====
-- set_nullable ends, and flags exactly the symbols that derive the empty string.
use llc.Common.{ℕ, zero, suc, ◌+◌, ◌-◌, ◌≤◌, ◌<◌, ◌≡◌, ◌↔◌, inl, inr, refl, ap, ◌∙◌, arith}
use llc.Common.{
  done, Bool, true, false, some, List, [], ◌∷◌, length, length-set, length-replicate, get_or, set,
  replicate, get_or-replicate, Bool-cases,
}
use llc.Jay.Grammar.{Grammar}
use llc.Jay.Nullable.{PassState, pass_entry, pass_loop, pass, nullable_loop, set_nullable}
use llc.Jay.Nullable.Rules.{
  Nullable, by_rule, Vanishes, ends, skips, Flagged, stop, pass_on, IsPacked,
}
use llc.Jay.Nullable.Pass.{
  read, found, over, entry_step, pass_loop-Sound, pass_loop-done, true_ne_false,
}
use llc.Jay.Nullable.Settled.{pass_settled}

-- The count of the symbols without a flag.
misses : List Bool → ℕ
misses [] = 0
misses (true ∷ flags) = misses flags
misses (false ∷ flags) = suc (misses flags)

misses-set :
    (flags : List Bool) (i : ℕ)
    → i < length flags
    → get_or flags i false ≡ false
    → misses flags ≡ suc (misses (set flags i true))
unfolding misses
misses-set [] i lt e = absurd (omega arith)
misses-set (true ∷ flags) zero lt e = absurd cc
misses-set (false ∷ flags) zero lt e = refl
misses-set (true ∷ flags) (suc i) lt e = misses-set flags i (omega arith) e
misses-set (false ∷ flags) (suc i) lt e = ap suc (misses-set flags i (omega arith) e)

misses-replicate : (n : ℕ) → misses (replicate n false) ≡ n
unfolding misses
misses-replicate zero = refl
misses-replicate (suc n) = ap suc (misses-replicate n)

module _ (g : Grammar) (ok : IsPacked g) where
  -- A pass keeps the number of flags, takes none back, and sets one where it does not end done.
  record Progress (s t : PassState) : Type 0 where
    pub size : length t.nullable ≡ length s.nullable
    pub fewer : misses t.nullable ≤ misses s.nullable
    pub finds : s.done ≡ true → t.done ≡ false → misses t.nullable < misses s.nullable

  pass_entry-Progress :
      (s : PassState) (i : ℕ)
      → length s.nullable ≡ g.nsyms
      → Progress s (pass_entry g s (g.ritem i))
  pass_entry-Progress s i size = elim (entry_step g s (g.ritem i)) [
    | read j e made ↦
        rw made
          (record { size = refl; fewer = omega arith; finds = λ t f. absurd (true_ne_false t f) })
    | found r e empty new made ↦
        let lt : g.rlhs r < length s.nullable = rw size (ok.left_sides i r e) in
        let one = misses-set s.nullable (g.rlhs r) lt new in
        rw made (record {
          size = length-set s.nullable (g.rlhs r) true;
          fewer = omega arith;
          finds = λ t f. omega arith;
        })
    | over r e old made ↦
        rw made
          (record { size = refl; fewer = omega arith; finds = λ t f. absurd (true_ne_false t f) })
  ]

  pass_loop-Progress :
      (left i : ℕ) (s : PassState) → length s.nullable ≡ g.nsyms → Progress s (pass_loop g left i s)
  unfolding pass_loop
  pass_loop-Progress zero i s size = record {
    size = refl;
    fewer = omega arith;
    finds = λ t f. absurd (true_ne_false t f);
  }
  pass_loop-Progress (suc left) i s size =
      let s' : PassState = pass_entry g s (g.ritem i) in
      let first : Progress s s' = pass_entry-Progress s i size in
      let rest : Progress s' (pass_loop g left (i + 1) s') =
        pass_loop-Progress left (i + 1) s' (first.size ∙ size) in
      record {
        size = rest.size ∙ first.size;
        fewer = let a = first.fewer in let b = rest.fewer in omega arith;
        finds = λ t f. elim (Bool-cases s'.done) [
          | inl still ↦ let a = rest.finds still f in let b = first.fewer in omega arith
          | inr not_now ↦ let a = first.finds t not_now in let b = rest.fewer in omega arith
        ];
      }

  abbrev AllRight : List Bool → Type 0
  AllRight flags = (x : ℕ) → get_or flags x false ≡ true → Nullable g x

  pass-AllRight : (flags : List Bool) → AllRight flags → AllRight (pass g flags).nullable
  pass-AllRight flags right =
      let some_entry = ok.nonempty in
      (pass_loop-Sound g (g.nitems - 1) 1 (record { nullable = flags; done = true; empty = true })
        (omega arith) (omega arith)
        (record { flags = right; opened = λ t r v. by_rule 1 r (inl refl) v })).flags

  -- Flags that a pass leaves alone are complete.
  mutual
    complete :
        (flags : List Bool) (x : ℕ)
        → (pass g flags).done ≡ true
        → Nullable g x
        → get_or flags x false ≡ true
    complete flags x d (by_rule p r opens v) =
        pass_settled g (g.nitems - 1) p r (record { nullable = flags; done = true; empty = true })
          refl (omega arith) d opens (all-Flagged flags r p d v)

    all-Flagged :
        (flags : List Bool) (r p : ℕ)
        → (pass g flags).done ≡ true
        → Vanishes g r p
        → Flagged g flags r p
    all-Flagged flags r p d (ends lt e) = stop lt e
    all-Flagged flags r p d (skips s lt e n v) =
        pass_on s lt e (complete flags s d n) (all-Flagged flags r (p + 1) d v)

  Result : List Bool → Type 0
  Result flags = (x : ℕ) → (get_or flags x false ≡ true) ↔ Nullable g x

  nullable_loop-Nullable :
      (fuel : ℕ) (flags : List Bool)
      → length flags ≡ g.nsyms
      → AllRight flags
      → misses flags < fuel
      → (nullable : List Bool) × (nullable_loop g fuel flags ≡ some nullable) × Result nullable
  unfolding nullable_loop Result
  nullable_loop-Nullable zero flags size right enough = absurd (omega arith)
  nullable_loop-Nullable (suc fuel) flags size right enough =
      let s : PassState = pass g flags in
      let begin : PassState = record { nullable = flags; done = true; empty = true } in
      let progress : Progress begin s = pass_loop-Progress (g.nitems - 1) 1 begin size in
      elim (Bool-cases s.done) [
        | inl d ↦
            let same : s.nullable ≡ flags = (pass_loop-done g (g.nitems - 1) 1 begin d).1 in
            (
              s.nullable,
              rw d refl,
              λ x. (pass-AllRight flags right x, λ n. rw same (complete flags x d n)),
            )
        | inr again ↦
            let fewer = progress.finds refl again in
            let (nullable, e, result) =
              nullable_loop-Nullable fuel s.nullable (progress.size ∙ size)
                (pass-AllRight flags right) (omega arith) in
            (nullable, rw again e, result)
      ]

  set_nullable-loop :
      (nullable : List Bool)
      → nullable_loop g (g.nsyms + 1) (replicate g.nsyms false) ≡ some nullable
      → set_nullable g ≡ done nullable
  unfolding set_nullable
  set_nullable-loop nullable e = let (r, at) = ok.last in ground (arith, at, e)

  -- Where ritem is not empty, its last entry ends a rule and the left sides are symbols, set_nullable
  -- ends, and the symbols it flags are exactly those that derive the empty string by the rules of the
  -- grammar.
  pub set_nullable-Nullable :
      (nullable : List Bool) × (set_nullable g ≡ done nullable)
      × ((x : ℕ) → (get_or nullable x false ≡ true) ↔ Nullable g x)
  unfolding Result
  set_nullable-Nullable =
      let (nullable, e, result) =
        nullable_loop-Nullable (g.nsyms + 1) (replicate g.nsyms false)
          (length-replicate g.nsyms false)
          (λ x on. absurd (true_ne_false on (get_or-replicate g.nsyms x false)))
          (omega (arith, misses-replicate g.nsyms)) in
      (nullable, set_nullable-loop nullable e, result)
