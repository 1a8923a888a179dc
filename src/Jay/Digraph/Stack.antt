-- ===== src/Jay/Digraph/Stack.antt =====
-- The places of vertices on the stack of traverse.
use llc.Common.{ℕ, suc, ◌≤◌, ◌≡◌, ◌⊎◌, inl, inr, sym, ◌∙◌, arith}
use llc.Common.{List, [], ◌∷◌, ◌++◌, length, length-append}

-- Vertex `v` is VERTICES[p].
abbrev pub At : List ℕ → ℕ → ℕ → Type 0
At [] p v = ⊥
At (x ∷ vertices) p v = ((p ≡ suc (length vertices)) × (x ≡ v)) ⊎ At vertices p v

pub At-range : (vertices : List ℕ) (p v : ℕ) → At vertices p v → (1 ≤ p) × (p ≤ length vertices)
At-range [] p v at = elim at [ ]
At-range (x ∷ vertices) p v (inl (e, same)) = (omega arith, omega arith)
At-range (x ∷ vertices) p v (inr at) =
    let (lo, hi) = At-range vertices p v at in (omega arith, omega arith)

pub At-above : (above vertices : List ℕ) (p v : ℕ) → At vertices p v → At (above ++ vertices) p v
At-above [] vertices p v at = at
At-above (x ∷ above) vertices p v at = inr (At-above above vertices p v at)

pub At-below :
    (above vertices : List ℕ) (p v : ℕ)
    → At (above ++ vertices) p v
    → p ≤ length vertices
    → At vertices p v
At-below [] vertices p v at le = at
At-below (x ∷ above) vertices p v (inl (e, same)) le =
    let size = length-append above vertices in absurd (omega arith)
At-below (x ∷ above) vertices p v (inr at) le = At-below above vertices p v at le

-- The vertex in the middle.
pub At-middle :
    (above vertices : List ℕ) (i v : ℕ)
    → At (above ++ i ∷ vertices) (suc (length vertices)) v
    → i ≡ v
At-middle above vertices i v at =
    elim (At-below above (i ∷ vertices) (suc (length vertices)) v at (omega arith)) [
      | inl (e, same) ↦ same
      | inr below ↦ let (lo, hi) = At-range vertices _ v below in absurd (omega arith)
    ]

-- No vertex stands twice on the stack.
abbrev pub OneEach : List ℕ → Type 0
OneEach vertices = (p q v : ℕ) → At vertices p v → At vertices q v → p ≡ q

pub OneEach-push :
    (vertices : List ℕ) (i : ℕ)
    → OneEach vertices
    → ((p : ℕ) → At vertices p i → ⊥)
    → OneEach (i ∷ vertices)
OneEach-push vertices i one new p q v (inl (e, same)) (inl (e', same')) = e ∙ sym e'
OneEach-push vertices i one new p q v (inl (e, same)) (inr b) = absurd (new q (rw (sym same) at b))
OneEach-push vertices i one new p q v (inr a) (inl (e, same)) = absurd (new p (rw (sym same) at a))
OneEach-push vertices i one new p q v (inr a) (inr b) = one p q v a b

pub OneEach-below : (above vertices : List ℕ) → OneEach (above ++ vertices) → OneEach vertices
OneEach-below above vertices one p q v a b =
    one p q v (At-above above vertices p v a) (At-above above vertices q v b)
