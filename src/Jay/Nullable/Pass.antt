-- ===== src/Jay/Nullable/Pass.antt =====
-- A pass of set_nullable over ritem.
use llc.Common.{ℕ, zero, suc, ◌+◌, ◌≤◌, ◌<◌, ◌≡◌, ◌⊎◌, inl, inr, refl, sym, ap, ◌∙◌, arith}
use llc.Common.{Bool, true, false, ◌&&◌, List, get_or, set, get_or-set_ne, Bool-cases}
use native.Mathlib.Decide.{ℕ_discrete}
use llc.Common.{both_true}
use llc.Jay.Grammar.{Grammar, Entry, symbol, end_of}
use llc.Jay.Nullable.{PassState, pass_entry, pass_loop}
use llc.Jay.Nullable.Rules.{Nullable, by_rule, ends, skips, Vanishes}

-- What a pass does at an entry.
pub data EntryStep (g : Grammar) (s : PassState) (e : Entry) : Type 0 where
  read :
      (j : ℕ)
      → e ≡ symbol j
      → pass_entry g s e ≡ record s { empty = s.empty && get_or s.nullable j false }
      → EntryStep g s e
  found :
      (r : ℕ)
      → e ≡ end_of r
      → s.empty ≡ true
      → get_or s.nullable (g.rlhs r) false ≡ false
      → pass_entry g s e
        ≡ record { nullable = set s.nullable (g.rlhs r) true; done = false; empty = true }
      → EntryStep g s e
  over :
      (r : ℕ)
      → e ≡ end_of r
      → (s.empty ≡ true → get_or s.nullable (g.rlhs r) false ≡ true)
      → pass_entry g s e ≡ record s { empty = true }
      → EntryStep g s e

pub entry_step : (g : Grammar) (s : PassState) (e : Entry) → EntryStep g s e
unfolding pass_entry
entry_step g s (symbol j) = read j refl refl
entry_step g s (end_of r) = elim (Bool-cases s.empty) [
  | inr full ↦ over r refl (λ e. cc) (rw full refl)
  | inl empty ↦ elim (Bool-cases (get_or s.nullable (g.rlhs r) false)) [
    | inl old ↦ over r refl (λ e. old) (rw (empty, old) refl)
    | inr new ↦ found r refl empty new (rw (empty, new) refl)
  ]
]

pub true_ne_false : {b : Bool} → b ≡ true → b ≡ false → ⊥
true_ne_false t f = cc

set-true_cases :
    (xs : List Bool) (i x : ℕ)
    → get_or (set xs i true) x false ≡ true
    → (i ≡ x) ⊎ (get_or xs x false ≡ true)
set-true_cases xs i x e = elim (ℕ_discrete i x) [
  | yes same ↦ inl same
  | no apart ↦ inr (sym (get_or-set_ne xs i x true false apart) ∙ e)
]

module _ (g : Grammar) where
  -- The flags are right, and `empty` says that the rule at hand has symbols that derive the empty
  -- string before entry `i`.
  pub record Sound (s : PassState) (i : ℕ) : Type 0 where
    pub flags : (x : ℕ) → get_or s.nullable x false ≡ true → Nullable g x
    pub opened : s.empty ≡ true → (r : ℕ) → Vanishes g r i → Nullable g (g.rlhs r)

  pass_entry-Sound :
      (s : PassState) (i : ℕ)
      → 1 ≤ i
      → i < g.nitems
      → Sound s i
      → Sound (pass_entry g s (g.ritem i)) (i + 1)
  pass_entry-Sound s i one lt ok =
      let next : (r' : ℕ)
          → g.ritem i ≡ end_of r'
          → (r : ℕ) → Vanishes g r (i + 1)
          → Nullable g (g.rlhs r) =
        λ r' e r v. by_rule (i + 1) r (inr (i, r', refl, one, e)) v in
      elim (entry_step g s (g.ritem i)) [
        | read j e made ↦ rw made (record {
          flags = ok.flags;
          opened = λ both r v.
              let (l, f) = both_true s.empty (get_or s.nullable j false) both in
              ok.opened l r (skips j lt e (ok.flags j f) v);
        })
        | found r e empty new made ↦ rw made (record {
          flags = λ x on. elim (set-true_cases s.nullable (g.rlhs r) x on) [
            | inl same ↦ rw same at (ok.opened empty r (ends lt e))
            | inr old ↦ ok.flags x old
          ];
          opened = λ t. next r e;
        })
        | over r e old made ↦ rw made (record { flags = ok.flags; opened = λ t. next r e })
      ]

  pub pass_loop-Sound :
      (left i : ℕ) (s : PassState)
      → 1 ≤ i
      → i + left ≤ g.nitems
      → Sound s i
      → Sound (pass_loop g left i s) (i + left)
  unfolding pass_loop
  pass_loop-Sound zero i s one le ok = let e : i + 0 ≡ i = omega arith in rw e ok
  pass_loop-Sound (suc left) i s one le ok =
      let e : i + suc left ≡ i + 1 + left = omega arith in
      rw e (
        pass_loop-Sound left (i + 1) (pass_entry g s (g.ritem i)) (omega arith) (omega arith)
          (pass_entry-Sound s i one (omega arith) ok))

  -- A pass that ends with `done` set has found nothing on its way.
  pub pass_loop-done :
      (left i : ℕ) (s : PassState)
      → (pass_loop g left i s).done ≡ true
      → (s.done ≡ true) × ((pass_loop g left i s).nullable ≡ s.nullable)
  unfolding pass_loop
  pass_loop-done zero i s d = (d, refl)
  pass_loop-done (suc left) i s d =
      let (t, same) = pass_loop-done left (i + 1) (pass_entry g s (g.ritem i)) d in
      elim (entry_step g s (g.ritem i)) [
        | read j e made ↦ (sym (ap (λ x. x.done) made) ∙ t, same ∙ ap (λ x. x.nullable) made)
        | found r e empty new made ↦
            let clash : false ≡ true = sym (ap (λ x. x.done) made) ∙ t in absurd cc
        | over r e old made ↦ (sym (ap (λ x. x.done) made) ∙ t, same ∙ ap (λ x. x.nullable) made)
      ]
