-- ===== src/Jay/Gotos/Sizes.antt =====
-- The arrays of the gotos have an entry for each goto, and map_goto answers one of them.
use llc.Common.{ℕ, zero, suc, ◌+◌, ◌-◌, ◌/◌, ◌<◌, ◌≡◌, inl, inr, refl, subst, ◌∙◌, arith}
use llc.Common.{
  Bool, true, false, Option, none, some, List, [], ◌∷◌, Bool-cases, length, length-set,
  length-replicate, get_elem?, get_elem?-some-lt, get_or, Run, done, abort, fault, stuck, ◌>>=◌,
  ltb, ◌==◌, if◌then◌else◌,
}
use mathlib.Core.List.{reverse}
use llc.Jay.Grammar.{Grammar}
use llc.Jay.Automaton.{Shifts}
use llc.Jay.Gotos.{
  Gotos, Counted, Filling, place_gotos, fill_targets, fill_gotos, set_goto_map, find_goto, map_goto,
}

found-lt :
    (n : ℕ) (c d e : Bool) (middle p : ℕ) (above below : Run ℕ)
    → middle < n
    → (above ≡ done p → p < n)
    → (below ≡ done p → p < n)
    → (if c then done middle else if d then above else if e then abort else below) ≡ done p
    → p < n
found-lt n true d e middle p above below lt ha hb h =
    let same : middle ≡ p = cc in omega (arith, same, lt)
found-lt n false true e middle p above below lt ha hb h = ha h
found-lt n false false true middle p above below lt ha hb h = absurd cc
found-lt n false false false middle p above below lt ha hb h = hb h

-- A turn of find_goto that ends answers a place of from_state.
turn-lt :
    (from_state : List ℕ) (b : Bool) (c d e : ℕ → Bool) (middle p : ℕ) (above below : Run ℕ)
    (o : Option ℕ)
    → get_elem? from_state middle ≡ o
    → (above ≡ done p → p < length from_state)
    → (below ≡ done p → p < length from_state)
    → (if b then abort else elim o [
      | none ↦ fault
      | some s ↦ if c s then done middle else if d s then above else if e s then abort else below
    ])
      ≡ done p
    → p < length from_state
turn-lt from_state true c d e middle p above below o at ha hb h = absurd cc
turn-lt from_state false c d e middle p above below none at ha hb h = absurd cc
turn-lt from_state false c d e middle p above below (some s) at ha hb h =
    found-lt (length from_state) (c s) (d s) (e s) middle p above below
      (get_elem?-some-lt from_state middle s at) ha hb h

find_goto-lt :
    (from_state : List ℕ) (state fuel low high p : ℕ)
    → find_goto from_state state fuel low high ≡ done p
    → p < length from_state
unfolding find_goto
find_goto-lt from_state state zero low high p h = absurd cc
find_goto-lt from_state state (suc fuel) low high p h =
    let above = find_goto-lt from_state state fuel ((low + high) / 2 + 1) high p in
    let below = find_goto-lt from_state state fuel low ((low + high) / 2 - 1) p in
    turn-lt from_state (ltb high low) (λ s. s == state) (λ s. ltb s state)
      (λ s. (low + high) / 2 == 0) ((low + high) / 2) p _ _ _ refl above below h

pub map_goto-lt :
    (g : Grammar) (gotos : Gotos) (state symbol p : ℕ)
    → map_goto g gotos state symbol ≡ done p
    → p < length gotos.from_state
unfolding map_goto
map_goto-lt g gotos state symbol p h = find_goto-lt gotos.from_state state _ _ _ p h

module _ (g : Grammar) (accessing_symbol : List ℕ) where
  abbrev SameSizes : Filling → Filling → Type 0
  SameSizes f later =
      (length later.from_state ≡ length f.from_state) × (length later.to_state ≡ length f.to_state)

  fill_targets-SameSizes :
      (state1 : ℕ) (targets : List ℕ) (f : Filling)
      → SameSizes f (fill_targets g accessing_symbol state1 targets f)
  unfolding fill_targets
  fill_targets-SameSizes state1 [] f = (refl, refl)
  fill_targets-SameSizes state1 (state2 ∷ targets) f =
      elim (Bool-cases (ltb (get_or accessing_symbol state2 0) g.start_symbol)) [
        | inl e ↦ rw e (refl, refl)
        | inr e ↦ rw e (
          (fill_targets-SameSizes state1 targets _).0 ∙ length-set f.from_state _ state1,
          (fill_targets-SameSizes state1 targets _).1 ∙ length-set f.to_state _ state2,
        )
      ]

  fill_gotos-SameSizes :
      (shifts : List Shifts) (f : Filling) → SameSizes f (fill_gotos g accessing_symbol shifts f)
  unfolding fill_gotos
  fill_gotos-SameSizes [] f = (refl, refl)
  fill_gotos-SameSizes (sp ∷ shifts) f =
      let (a, b) = fill_targets-SameSizes sp.number (reverse sp.shift) f in
      let (c, d) =
        fill_gotos-SameSizes shifts
          (fill_targets g accessing_symbol sp.number (reverse sp.shift) f) in
      (c ∙ a, d ∙ b)

  abbrev pub IsSized : Gotos → Type 0
  IsSized gotos = (length gotos.from_state ≡ gotos.ngotos) × (length gotos.to_state ≡ gotos.ngotos)

  place_gotos-IsSized :
      (shifts : List Shifts) (c : Counted) → IsSized (place_gotos g accessing_symbol shifts c)
  unfolding place_gotos
  place_gotos-IsSized shifts c =
      let (a, b) = fill_gotos-SameSizes shifts _ in
      (a ∙ length-replicate c.ngotos 0, b ∙ length-replicate c.ngotos 0)

  placed-IsSized :
      (shifts : List Shifts) (counted : Run Counted) (gotos : Gotos)
      → (counted >>= λ c. done (place_gotos g accessing_symbol shifts c)) ≡ done gotos
      → IsSized gotos
  placed-IsSized shifts (done c) gotos h =
      let same : place_gotos g accessing_symbol shifts c ≡ gotos = cc in
      subst (λ x. IsSized x) same (place_gotos-IsSized shifts c)
  placed-IsSized shifts fault gotos h = absurd cc
  placed-IsSized shifts abort gotos h = absurd cc
  placed-IsSized shifts stuck gotos h = absurd cc

  pub set_goto_map-IsSized :
      (shifts : List Shifts) (gotos : Gotos)
      → set_goto_map g accessing_symbol shifts ≡ done gotos
      → IsSized gotos
  unfolding set_goto_map
  set_goto_map-IsSized shifts gotos h = placed-IsSized shifts _ gotos h
