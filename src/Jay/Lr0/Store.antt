-- ===== src/Jay/Lr0/Store.antt =====
-- The search of get_state among the states of a key.
use llc.Common.{ℕ, ◌≡◌, ◌≢◌, inl, inr, refl, sym, ◌∙◌, arith}
use llc.Common.{
  true, false, ◌&&◌, none, some, List, [], ◌∷◌, length, ◌==◌, ==_refl, ==_iff, Among, Bool-cases,
}
use native.Mathlib.Decide.{ℕ_discrete}
use llc.Common.{both_true}
use llc.Jay.Lr0.{Core, same_items, find_state}

same_items-eq : (xs ys : List ℕ) → length ys ≡ length xs → same_items xs ys ≡ true → xs ≡ ys
unfolding same_items
same_items-eq [] [] size e = refl
same_items-eq [] (y ∷ ys) size e = absurd (omega arith)
same_items-eq (x ∷ xs) [] size e = absurd (omega arith)
same_items-eq (x ∷ xs) (y ∷ ys) size e = elim (ℕ_discrete x y) [
  | yes same ↦ rw (same, same_items-eq xs ys (omega arith) (rw (same, ==_refl y) at e)) refl
  | no apart ↦ ground (arith, e, apart)
]

same_items_refl : (xs : List ℕ) → same_items xs xs ≡ true
unfolding same_items
same_items_refl [] = refl
same_items_refl (x ∷ xs) = rw (==_refl x) (same_items_refl xs)

-- What find_state finds.
pub data Search (items : List ℕ) (chain : List Core) : Type 0 where
  hit :
      (sp : Core)
      → find_state items chain ≡ some sp
      → Among sp chain
      → sp.items ≡ items
      → Search items chain
  miss :
      find_state items chain ≡ none
      → ((sp : Core) → Among sp chain → sp.items ≢ items)
      → Search items chain

pub Search-chain : (items : List ℕ) (chain : List Core) → Search items chain
unfolding find_state
Search-chain items [] = miss refl (λ sp m. elim m [ ])
Search-chain items (sp ∷ chain) =
    elim (Bool-cases ((length sp.items == length items) && same_items items sp.items)) [
      | inl on ↦
          let (size, same) = both_true _ _ on in
          hit sp (rw on refl) (inl refl)
            (sym (same_items-eq items sp.items ((==_iff _ _).0 size) same))
      | inr off ↦
          let differ : sp.items ≢ items = λ e.
            let clash : true ≡ false =
              sym (rw (e, ==_refl (length items)) (same_items_refl items)) ∙ off in
            absurd cc in
          elim (Search-chain items chain) [
            | hit other e m same ↦ hit other (rw off e) (inr m) same
            | miss e out ↦
                miss (rw off e)
                  (λ q m. elim m [ inl here ↦ rw here at differ | inr later ↦ out q later ])
          ]
    ]
