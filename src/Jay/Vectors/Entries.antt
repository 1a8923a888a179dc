-- ===== src/Jay/Vectors/Entries.antt =====
-- A turn of pack_table keeps the vectors that the table holds, and adds one.
use llc.Common.{ℕ, ◌+◌, ◌≤◌, ◌<◌, ◌≡◌, ◌≢◌, ◌⊎◌, inl, inr, refl, sym, ap, subst, ◌∙◌, arith}
use llc.Common.{
  true, false, none, some, List, [], ◌∷◌, ◌++◌, length, length-set, get_or, get_or-set_self,
  get_or-set_ne, set, ==_refl, Bool-cases, ◌==◌, Among,
}
use native.Mathlib.Decide.{ℕ_discrete}
use llc.Jay.Vectors.{Vector, Packing, bias, loc_of, is_taken}
use llc.Jay.Vectors.Write.{check_of, table_of}
use llc.Jay.Vectors.Place.{Packed}
use llc.Jay.Vectors.Match.{Matches}

-- The place of vector `i`.
abbrev pub base_of : Packing → ℕ → ℕ
base_of p i = get_or p.base i bias

abbrev pub HoldsAt : Packing → ℕ → List (ℕ × ℕ) → Type 0
HoldsAt p c entries =
    (f t : ℕ)
    → Among (f, t) entries
    → (bias ≤ c + f) × (check_of p (loc_of c f) ≡ some f) × (table_of p (loc_of c f) ≡ t)

-- The table holds the vectors `before`.
pub record IsPacked (v : ℕ → Vector) (before : List ℕ) (p : Packing) : Type 0 where
  pub level : length p.table ≡ length p.check
  pub holds : (i : ℕ) → Among i before → HoldsAt p (base_of p i) (v i).entries
  pub sound :
      (l f : ℕ)
      → check_of p l ≡ some f
      → (i : ℕ) × Among i before
        × ((t : ℕ) × Among (f, t) (v i).entries)
        × (l + bias ≡ base_of p i + f)
  pub taken : (i : ℕ) → Among i before → is_taken (base_of p i) p.pos ≡ true
  pub one :
      (i k : ℕ)
      → Among i before
      → Among k before
      → base_of p i ≡ base_of p k
      → (v i).entries ≡ (v k).entries
  pub inside : (i : ℕ) → Among i before → i < length p.base

abbrev pub advance : ℕ → ℕ → Packing → Packing
advance i place q = record q { pos = q.pos ++ place ∷ []; base = set q.base i place }

is_taken-append :
    (x place : ℕ) (pos : List ℕ)
    → (x ≡ place) ⊎ (is_taken x pos ≡ true)
    → is_taken x (pos ++ place ∷ []) ≡ true
unfolding is_taken
is_taken-append x place [] (inl e) = rw (e, ==_refl place) refl
is_taken-append x place [] (inr e) = absurd cc
is_taken-append x place (k ∷ pos) h = elim (Bool-cases (k == x)) [
  | inl same ↦ rw same refl
  | inr differ ↦
      rw differ
        (is_taken-append x place pos (elim h [ inl e ↦ inl e | inr e ↦ inr (rw differ at e) ]))
]

-- An entry of the vector that is written to `l`, if there is one.
locate :
    (c l : ℕ) (entries : List (ℕ × ℕ))
    → ((f t : ℕ) × Among (f, t) entries × (loc_of c f ≡ l))
      ⊎ ((f t : ℕ) → Among (f, t) entries → loc_of c f ≢ l)
locate c l [] = inr (λ f t m. elim m [ ])
locate c l ((f, t) ∷ entries) = elim (ℕ_discrete (loc_of c f) l) [
  | yes here ↦ inl (f, t, inl refl, here)
  | no ne ↦ elim (locate c l entries) [
    | inl (g, u, m, e) ↦ inl (g, u, inr m, e)
    | inr off ↦ inr (λ g u m. elim m [
      | inr later ↦ off g u later
      | inl same ↦ λ e. ne (ap (λ x. loc_of c x.0) same ∙ e)
    ])
  ]
]

module _ (v : ℕ → Vector) (before : List ℕ) (i : ℕ) (p : Packing) where
  -- The base of a vector before and behind the turn for vector `i`, which is not among them.
  base_cases :
      (place : ℕ) (q : Packing)
      → q.base ≡ p.base
      → i < length p.base
      → ((k : ℕ) → Among k before → i ≢ k)
      → (k : ℕ) → Among k (i ∷ before)
      → ((i ≡ k) × (base_of (advance i place q) k ≡ place))
        ⊎ (Among k before × (base_of (advance i place q) k ≡ base_of p k))
  base_cases place q e lt off k (inl same) = inl (
    same,
    subst (λ x. base_of (advance i place q) x ≡ place) same
        (get_or-set_self q.base i place bias (subst (λ b. i < length b) (sym e) lt)),
  )
  base_cases place q e lt off k (inr m) =
      inr (m, get_or-set_ne q.base i k place bias (off k m) ∙ ap (λ b. get_or b k bias) e)

  module _ (ok : IsPacked v before p) (lt : i < length p.base)
      (off : (k : ℕ) → Among k before → i ≢ k) where
    inside_advance :
        (place : ℕ) (q : Packing)
        → q.base ≡ p.base
        → (k : ℕ) → Among k (i ∷ before)
        → k < length (advance i place q).base
    inside_advance place q e k m =
        let size = length-set q.base i place in
        let size' = ap (λ (b : List ℕ). length b) e in
        elim m [
          | inl same ↦ omega (arith, size, size', same, lt)
          | inr old ↦ let lt' = ok.inside k old in omega (arith, size, size', lt')
        ]

    taken_advance :
        (place : ℕ) (q : Packing)
        → q.base ≡ p.base
        → q.pos ≡ p.pos
        → (k : ℕ) → Among k (i ∷ before)
        → is_taken (base_of (advance i place q) k) (q.pos ++ place ∷ []) ≡ true
    taken_advance place q e e' k m =
        is_taken-append (base_of (advance i place q) k) place q.pos
          (elim (base_cases place q e lt off k m) [
            | inl (same, at) ↦ inl at
            | inr (old, at) ↦ inr (
                ap (λ c. is_taken c q.pos) at
                ∙ ap (λ pos. is_taken (base_of p k) pos) e'
                ∙ ok.taken k old)
          ])

    -- A turn that takes the place of vector `j`.
    pub copied-IsPacked :
        (j : ℕ) → Matches v i before j → IsPacked v (i ∷ before) (advance i (base_of p j) p)
    copied-IsPacked j (among, equal) =
        let cases = base_cases (base_of p j) p refl lt off in
        record {
          level = ok.level;
          holds = λ k m. elim (cases k m) [
            | inr (old, at) ↦ subst (λ c. HoldsAt p c (v k).entries) (sym at) (ok.holds k old)
            | inl (same, at) ↦
                subst (λ c. HoldsAt p c (v k).entries) (sym at)
                  (subst (λ es. HoldsAt p (base_of p j) es) (equal ∙ ap (λ x. (v x).entries) same)
                    (ok.holds j among))
          ];
          sound = λ l f e.
              let (k, old, entry, sum) = ok.sound l f e in
              elim (cases k (inr old)) [
                | inl (same, at) ↦ absurd (off k old same)
                | inr (m, at) ↦ (k, inr old, entry, omega (arith, sum, at))
              ];
          taken = taken_advance (base_of p j) p refl refl;
          one = λ k k' m m' e. elim (cases k m) [
            | inl (same, at) ↦ elim (cases k' m') [
              | inl (same', at') ↦ ap (λ x. (v x).entries) (sym same ∙ same')
              | inr (old', at') ↦
                  ap (λ x. (v x).entries) (sym same)
                  ∙ sym equal
                  ∙ ok.one j k' among old' (sym at ∙ e ∙ at')
            ]
            | inr (old, at) ↦ elim (cases k' m') [
              | inl (same', at') ↦
                  ok.one k j old among (sym at ∙ e ∙ at') ∙ equal ∙ ap (λ x. (v x).entries) same'
              | inr (old', at') ↦ ok.one k k' old old' (sym at ∙ e ∙ at')
            ]
          ];
          inside = inside_advance (base_of p j) p refl;
        }

    -- A place that is new is no vector's base.
    new_place : (place k : ℕ) → is_taken place p.pos ≡ false → Among k before → base_of p k ≢ place
    new_place place k new old e =
        let clash : true ≡ false = sym (ok.taken k old) ∙ ap (λ c. is_taken c p.pos) e ∙ new in
        absurd cc

    Packed-holds :
        (place : ℕ) (q : Packing)
        → Packed (v i).entries p place q
        → (k : ℕ) → Among k before
        → HoldsAt q (base_of p k) (v k).entries
    Packed-holds place q packed k old f t m =
        let (lo, check, value) = ok.holds k old f t m in
        let away : (g u : ℕ)
            → Among (g, u) (v i).entries
            → loc_of place g ≢ loc_of (base_of p k) f =
          λ g u m' e.
            let clash : none ≡ some f =
              sym (packed.was_free g u m') ∙ ap (λ l. check_of p l) e ∙ check in
            absurd cc in
        let (same_check, same_table) = packed.elsewhere (loc_of (base_of p k) f) away in
        (lo, same_check ∙ check, same_table ∙ value)

    -- A turn that packs the vector at a new place.
    pub Packed-IsPacked :
        (place : ℕ) (q : Packing)
        → Packed (v i).entries p place q
        → IsPacked v (i ∷ before) (advance i place q)
    Packed-IsPacked place q packed =
        let cases = base_cases place q packed.base lt off in
        record {
          level = packed.level;
          holds = λ k m. elim (cases k m) [
            | inr (old, at) ↦
                subst (λ c. HoldsAt q c (v k).entries) (sym at) (Packed-holds place q packed k old)
            | inl (same, at) ↦
                subst (λ c. HoldsAt q c (v k).entries) (sym at)
                  (subst (λ x. HoldsAt q place (v x).entries) same
                    (λ f t m'.
                      let (check, value) = packed.there f t m' in
                      (packed.low f t m', check, value)))
          ];
          sound = λ l f e. elim (locate place l (v i).entries) [
            | inl (g, u, m, here) ↦
                let check = (packed.there g u m).0 in
                let both : some g ≡ some f = sym check ∙ ap (λ x. check_of q x) here ∙ e in
                let gf : g ≡ f = cc in
                let lo = packed.low g u m in
                elim (cases i (inl refl)) [
                  | inr (old, at) ↦ absurd (off i old refl)
                  | inl (same, at) ↦ (
                    i,
                    inl refl,
                    (u, subst (λ x. Among (x, u) (v i).entries) gf m),
                    omega (arith, here, lo, gf, at),
                  )
                ]
            | inr away ↦
                let (k, old, entry, sum) = ok.sound l f (sym (packed.elsewhere l away).0 ∙ e) in
                elim (cases k (inr old)) [
                  | inl (same, at) ↦ absurd (off k old same)
                  | inr (m, at) ↦ (k, inr old, entry, omega (arith, sum, at))
                ]
          ];
          taken = taken_advance place q packed.base packed.pos;
          one = λ k k' m m' e. elim (cases k m) [
            | inl (same, at) ↦ elim (cases k' m') [
              | inl (same', at') ↦ ap (λ x. (v x).entries) (sym same ∙ same')
              | inr (old', at') ↦ absurd (new_place place k' packed.new old' (sym at' ∙ sym e ∙ at))
            ]
            | inr (old, at) ↦ elim (cases k' m') [
              | inl (same', at') ↦ absurd (new_place place k packed.new old (sym at ∙ e ∙ at'))
              | inr (old', at') ↦ ok.one k k' old old' (sym at ∙ e ∙ at')
            ]
          ];
          inside = inside_advance place q packed.base;
        }
