-- ===== src/Exception/Classes/Ancestors.antt =====
-- The class test against the list of a class's ancestors.
use llc.Common.{ℕ, zero, suc, ◌<◌, ◌≡◌, ◌≢◌, arith}
use llc.Common.{Bool, false, ◌||◌, List, [], ◌∷◌, length, done, ◌==◌}
use llc.Exception.Words.{Words}
use llc.Exception.Classes.{get_super_vtable, catches}

-- The tables from a class up to the root, whose `super` is null.
pub data Ancestors (m : Words) : ℕ → List ℕ → Type 0 where
  root : Ancestors m 0 []
  below :
      {e e' : ℕ} {classes : List ℕ}
      → e ≢ 0
      → get_super_vtable m e ≡ done e'
      → Ancestors m e' classes
      → Ancestors m e (e ∷ classes)

unfoldable pub contains : ℕ → List ℕ → Bool
contains catch [] = false
contains catch (e ∷ classes) = catch == e || contains catch classes

-- A handler for a class catches an exception exactly if its class is that of the exception or one
-- of its ancestors, and the test ends once it has fuel for one call more than there are of these.
pub catches-contains :
    (fuel : ℕ) (m : Words) (catch e : ℕ) (classes : List ℕ)
    → catch ≢ 0
    → Ancestors m e classes
    → length classes < fuel
    → catches fuel m catch e ≡ done (contains catch classes)
unfolding catches contains
catches-contains zero m catch e classes hc a h = absurd (omega arith)
catches-contains (suc fuel) m catch e classes hc root h = ground arith
catches-contains (suc fuel) m catch e (c ∷ classes) hc (below {e' = e'} he up a) h =
    ground (arith, up, catches-contains fuel m catch e' classes hc a)
