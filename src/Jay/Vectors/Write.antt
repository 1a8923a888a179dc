-- ===== src/Jay/Vectors/Write.antt =====
-- Where a vector fits, and what writing it changes.
use llc.Common.{ℕ, zero, suc, ◌+◌, ◌≤◌, ◌<◌, ◌≡◌, ◌≢◌, inl, inr, refl, ap, subst, ◌∙◌, arith}
use llc.Common.{
  true, Option, none, some, List, [], ◌∷◌, ◌++◌, length, length-set, length-append,
  length-replicate, get_or, get_or-set_self, get_or-set_ne, get_or-replicate, set, replicate,
  IfDone, IfDone->>=, IfDone-if, IfDone-map, Bool-cases, leb, ltb, if◌then◌else◌, Among,
}
use llc.Jay.Vectors.{Packing, bias, max_table, loc_of, is_free, grow, growth, fits, write_entries}

abbrev pub check_of : Packing → ℕ → Option ℕ
check_of p l = get_or p.check l none

abbrev pub table_of : Packing → ℕ → ℕ
table_of p l = get_or p.table l 0

-- The arrays are as they were, or longer.
pub record Extends (p q : Packing) : Type 0 where
  pub check : (l : ℕ) → check_of q l ≡ check_of p l
  pub table : (l : ℕ) → table_of q l ≡ table_of p l
  pub longer : length p.check ≤ length q.check
  pub level : length q.table ≡ length q.check
  pub pos : q.pos ≡ p.pos
  pub base : q.base ≡ p.base

pub Extends-refl : (p : Packing) → length p.table ≡ length p.check → Extends p p
Extends-refl p level = record {
  check = λ l. refl;
  table = λ l. refl;
  longer = omega arith;
  level = level;
  pos = refl;
  base = refl;
}

pub Extends-trans : (p q r : Packing) → Extends p q → Extends q r → Extends p r
Extends-trans p q r a b = record {
  check = λ l. b.check l ∙ a.check l;
  table = λ l. b.table l ∙ a.table l;
  longer = omega (arith, a.longer, b.longer);
  level = b.level;
  pos = b.pos ∙ a.pos;
  base = b.base ∙ a.base;
}

get_or-append_replicate {ℓ} :
    {A : Type ℓ} (xs : List A) (n l : ℕ) (d : A) → get_or (xs ++ replicate n d) l d ≡ get_or xs l d
get_or-append_replicate [] n l d = get_or-replicate n l d
get_or-append_replicate (x ∷ xs) n zero d = refl
get_or-append_replicate (x ∷ xs) n (suc l) d = get_or-append_replicate xs n l d

grow-Extends :
    (loc : ℕ) (p : Packing)
    → length p.table ≡ length p.check
    → IfDone (grow loc p) (λ q. Extends p q × (loc < length q.check))
unfolding grow
grow-Extends loc p level = elim (Bool-cases (leb (length p.check) loc)) [
  | inr inside ↦
      let lt : loc < length p.check = ground (arith, inside) in rw inside (Extends-refl p level, lt)
  | inl outside ↦
      let n = growth (length p.check) loc in
      let size =
        length-append p.check (replicate n none)
        ∙ ap (λ k. length p.check + k) (length-replicate n none) in
      let size' =
        length-append p.table (replicate n 0)
        ∙ ap (λ k. length p.table + k) (length-replicate n 0) in
      rw outside (
        IfDone-if (leb max_table loc) _ _ _ tt (
          record {
            check = λ l. get_or-append_replicate p.check n l none;
            table = λ l. get_or-append_replicate p.table n l 0;
            longer = omega (arith, size);
            level = omega (arith, size, size', level);
            pos = refl;
            base = refl;
          },
          omega (arith, size),
        ))
]

free_none : (o : Option ℕ) → is_free o ≡ true → o ≡ none
free_none none e = refl
free_none (some f) e = absurd cc

-- The entries of the vector are free at place `j`.
abbrev pub AllFree : ℕ → List (ℕ × ℕ) → Packing → Type 0
AllFree j entries p =
    (f t : ℕ)
    → Among (f, t) entries
    → (loc_of j f < length p.check) × (check_of p (loc_of j f) ≡ none)

pub fits-AllFree :
    (j : ℕ) (entries : List (ℕ × ℕ)) (p : Packing)
    → length p.table ≡ length p.check
    → IfDone (fits j entries p) (λ (ok, q). Extends p q × (ok ≡ true → AllFree j entries q))
unfolding fits
fits-AllFree j [] p level = (Extends-refl p level, λ ok f t m. elim m [ ])
fits-AllFree j ((f, t) ∷ entries) p level =
    IfDone->>= (grow (loc_of j f) p) _ (λ q. Extends p q × (loc_of j f < length q.check)) _
      (grow-Extends (loc_of j f) p level)
      (λ q (grown, room). elim (Bool-cases (is_free (check_of q (loc_of j f)))) [
        | inr taken ↦ rw taken (grown, λ ok. absurd cc)
        | inl free ↦ rw free (
            IfDone-map (fits j entries q) _ _
              (λ (ok, r) (later, all_free). (
                Extends-trans p q r grown later,
                λ e g u m. elim m [
                  | inr behind ↦ all_free e g u behind
                  | inl same ↦
                      let e' : f ≡ g = ap (λ x. x.0) same in
                      subst (λ h. (loc_of j h < length r.check) × (check_of r (loc_of j h) ≡ none))
                        e'
                        (
                          omega (arith, room, later.longer),
                          later.check (loc_of j f) ∙ free_none (check_of q (loc_of j f)) free,
                        )
                ],
              ))
              (fits-AllFree j entries q grown.level))
      ])

-- No two entries have one `from`.
abbrev pub Distinct : List (ℕ × ℕ) → Type 0
Distinct [] = Unit
Distinct ((f, t) ∷ entries) = ((g u : ℕ) → Among (g, u) entries → f ≢ g) × Distinct entries

-- What holds behind the writing of a vector at place `j`.
pub record Written (j : ℕ) (entries : List (ℕ × ℕ)) (p q : Packing) : Type 0 where
  pub there :
      (f t : ℕ)
      → Among (f, t) entries
      → (check_of q (loc_of j f) ≡ some f) × (table_of q (loc_of j f) ≡ t)
  pub elsewhere :
      (l : ℕ)
      → ((f t : ℕ) → Among (f, t) entries → loc_of j f ≢ l)
      → (check_of q l ≡ check_of p l) × (table_of q l ≡ table_of p l)
  pub level : length q.table ≡ length q.check
  pub size : length q.check ≡ length p.check
  pub pos : q.pos ≡ p.pos
  pub base : q.base ≡ p.base

abbrev put : ℕ → ℕ → ℕ → Packing → Packing
put j f t p = record p {
  table = set p.table (loc_of j f) t;
  check = set p.check (loc_of j f) (some f);
  high = if ltb p.high (loc_of j f) then loc_of j f else p.high;
}

pub write_entries-Written :
    (j : ℕ) (entries : List (ℕ × ℕ)) (p : Packing)
    → length p.table ≡ length p.check
    → Distinct entries
    → ((f t : ℕ) → Among (f, t) entries → (bias ≤ j + f) × (loc_of j f < length p.check))
    → Written j entries p (write_entries j entries p)
unfolding write_entries
write_entries-Written j [] p level distinct inside = record {
  there = λ f t m. elim m [ ];
  elsewhere = λ l off. (refl, refl);
  level = level;
  size = refl;
  pos = refl;
  base = refl;
}
write_entries-Written j ((f, t) ∷ entries) p level (apart, distinct) inside =
    let (low, room) = inside f t (inl refl) in
    let size = length-set p.check (loc_of j f) (some f) in
    let size' = length-set p.table (loc_of j f) t in
    let later =
      write_entries-Written j entries (put j f t p) (omega (arith, size, size', level)) distinct
        (λ g u m. let (low', room') = inside g u (inr m) in (low', omega (arith, room', size))) in
    let (c, d) = later.elsewhere (loc_of j f) (λ g u m e.
      let (low', room') = inside g u (inr m) in apart g u m (omega (arith, e, low, low'))) in
    record {
      there = λ g u m. elim m [
        | inr behind ↦ later.there g u behind
        | inl same ↦
            subst
              (λ e.
                (check_of (write_entries j entries (put j f t p)) (loc_of j e.0) ≡ some e.0)
                × (table_of (write_entries j entries (put j f t p)) (loc_of j e.0) ≡ e.1))
              same
              (
                c ∙ get_or-set_self p.check (loc_of j f) (some f) none room,
                d ∙ get_or-set_self p.table (loc_of j f) t 0 (omega (arith, room, level)),
              )
      ];
      elsewhere = λ l off.
          let (a, b) = later.elsewhere l (λ g u m. off g u (inr m)) in
          let ne = off f t (inl refl) in
          (
            a ∙ get_or-set_ne p.check (loc_of j f) l (some f) none ne,
            b ∙ get_or-set_ne p.table (loc_of j f) l t 0 ne,
          );
      level = later.level;
      size = later.size ∙ size;
      pos = later.pos;
      base = later.base;
    }
