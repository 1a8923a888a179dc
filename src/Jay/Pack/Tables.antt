-- ===== src/Jay/Pack/Tables.antt =====
-- The tables of pack_grammar are those that the later passes rely on.
use llc.Common.{ℕ, zero, suc, ◌+◌, ◌-◌, ◌≤◌, ◌<◌, ◌≡◌, inl, inr, refl, arith}
use llc.Common.{
  Option, none, some, List, [], ◌∷◌, ◌++◌, length, length-append, get_or, done, le→not_ltb,
}
use llc.Jay.Grammar.{Grammar, Entry, symbol, end_of, maxshort}
use llc.Jay.Mkpar.{Assoc}
use llc.Jay.Automaton.Sort.{Growing, Growing-weaken, AllBelow}
use llc.Jay.Automaton.Generate.{IsTables}
use llc.Jay.Lr0.Itemsets.{entry_case}
use llc.Jay.Nullable.Rules.{IsPacked}
use llc.Jay.Pack.{
  Symbol, Source, Rules, take_rule, rule_entries, rule_prec, short_or_fault, pack_rules, tables,
  pack_grammar,
}

-- `n` nulls, the last one at the end.
abbrev pub Nulls : ℕ → List (Option Symbol) → Type 0
Nulls zero [] = Unit
Nulls zero (s ∷ pitem) = ⊥
Nulls (suc n) [] = ⊥
Nulls (suc n) (none ∷ pitem) = Nulls n pitem
Nulls (suc n) (some s ∷ pitem) = Nulls (suc n) pitem

-- The symbols are numbered below `n`.
abbrev pub Known : ℕ → List (Option Symbol) → Type 0
Known n [] = Unit
Known n (none ∷ pitem) = Known n pitem
Known n (some s ∷ pitem) = (s.index < n) × Known n pitem

abbrev KnownSymbols : ℕ → List Symbol → Type 0
KnownSymbols n [] = Unit
KnownSymbols n (s ∷ symbols) = (s.index < n) × KnownSymbols n symbols

take_rule_lem :
    (n m : ℕ) (pitem : List (Option Symbol))
    → Nulls (suc n) pitem
    → Known m pitem
    → (symbols : List Symbol) × (rest : List (Option Symbol)) × (take_rule pitem
        ≡ some (symbols, rest))
      × Nulls n rest
      × KnownSymbols m symbols
      × Known m rest
      × (length pitem ≡ length symbols + 1 + length rest)
unfolding take_rule
take_rule_lem n m [] nulls known = elim nulls [ ]
take_rule_lem n m (none ∷ pitem) nulls known = ([], pitem, refl, nulls, tt, known, omega arith)
take_rule_lem n m (some s ∷ pitem) nulls (lt, known) =
    let (symbols, rest, e, nulls', inside, known', size) = take_rule_lem n m pitem nulls known in
    (s ∷ symbols, rest, rw e refl, nulls', (lt, inside), known', omega arith)

-- Each symbol is below `n` and has an entry behind it.
abbrev Closed : ℕ → List Entry → Type 0
Closed n [] = Unit
Closed n (end_of r ∷ entries) = Closed n entries
Closed n (symbol s ∷ []) = ⊥
Closed n (symbol s ∷ e ∷ entries) = (s < n) × Closed n (e ∷ entries)

rule_entries-Closed :
    (n i : ℕ) (symbols : List Symbol) (entries : List Entry)
    → KnownSymbols n symbols
    → Closed n entries
    → Closed n (rule_entries symbols i ++ entries)
unfolding rule_entries
rule_entries-Closed n i [] entries known closed = closed
rule_entries-Closed n i (s ∷ []) entries (lt, known) closed = (lt, closed)
rule_entries-Closed n i (s ∷ t ∷ symbols) entries (lt, known) closed =
    (lt, rule_entries-Closed n i (t ∷ symbols) entries known closed)

length-rule_entries :
    (symbols : List Symbol) (i : ℕ) → length (rule_entries symbols i) ≡ length symbols + 1
unfolding rule_entries
length-rule_entries [] i = omega arith
length-rule_entries (s ∷ symbols) i = omega (arith, length-rule_entries symbols i)

Closed-at :
    (n : ℕ) (entries : List Entry) (i s : ℕ)
    → Closed n entries
    → get_or entries i (end_of 0) ≡ symbol s
    → (s < n) × (i + 1 < length entries)
Closed-at n [] i s c e = absurd cc
Closed-at n (end_of r ∷ entries) zero s c e = absurd cc
Closed-at n (end_of r ∷ entries) (suc i) s c e =
    let (lt, inside) = Closed-at n entries i s c e in (lt, omega arith)
Closed-at n (symbol t ∷ []) i s c e = elim c [ ]
Closed-at n (symbol t ∷ f ∷ entries) zero s (lt, c) e =
    let same : t ≡ s = cc in (rw same at lt, omega arith)
Closed-at n (symbol t ∷ f ∷ entries) (suc i) s (lt, c) e =
    let (lt', inside) = Closed-at n (f ∷ entries) i s c e in (lt', omega arith)

last_entry :
    (n : ℕ) (entries : List Entry) (i : ℕ)
    → Closed n entries
    → length entries ≡ i + 1
    → (r : ℕ) × (get_or entries i (end_of 0) ≡ end_of r)
last_entry n entries i closed size = elim (entry_case (get_or entries i (end_of 0))) [
  | inr ends ↦ ends
  | inl (s, at) ↦ let (below, inside) = Closed-at n entries i s closed at in absurd (omega arith)
]

-- What the loop leaves for `left` rules with `size` items from entry `j` on.
record IsRules (n left j size : ℕ) (t : Rules) : Type 0 where
  pub items : length t.ritem ≡ size
  pub closed : Closed n t.ritem
  pub rules : length t.rrhs ≡ left + 1
  pub growing : Growing j t.rrhs
  pub inside : (r : ℕ) → r < left → get_or t.rrhs r 0 < j + size
  pub lefts : AllBelow n t.rlhs

rule_inside :
    (j n size rest r left : ℕ) (rrhs : List ℕ)
    → size ≡ n + 1 + rest
    → ((r' : ℕ) → r' < left → get_or rrhs r' 0 < j + (n + 1) + rest)
    → r < suc left
    → get_or (j ∷ rrhs) r 0 < j + size
rule_inside j n size rest zero left rrhs e later lt = omega arith
rule_inside j n size rest (suc r) left rrhs e later lt =
    let inside = later r (omega arith) in omega arith

short_fits : (n : ℕ) → n ≤ maxshort → short_or_fault n ≡ done n
short_fits n le = rw (le→not_ltb n maxshort le) refl

pack_rules-IsRules :
    (src : Source) (left i j : ℕ) (pitem : List (Option Symbol))
    → Nulls left pitem
    → Known src.nsyms pitem
    → ((r : ℕ) → src.plhs r < src.nsyms)
    → j + length pitem ≤ maxshort
    → (t : Rules) × (pack_rules src left i j pitem ≡ done t)
      × IsRules src.nsyms left j (length pitem) t
unfolding pack_rules
pack_rules-IsRules src zero i j [] nulls known lefts fits = (
  record { ritem = []; rlhs = []; rrhs = j ∷ []; precs = [] },
  rw (short_fits j (omega arith)) refl,
  record {
    items = refl;
    closed = tt;
    rules = omega arith;
    growing = (omega arith, tt);
    inside = λ r lt. absurd (omega arith);
    lefts = tt;
  },
)
pack_rules-IsRules src zero i j (s ∷ pitem) nulls known lefts fits = elim nulls [ ]
pack_rules-IsRules src (suc left) i j pitem nulls known lefts fits =
    let (symbols, rest, e, nulls', known_symbols, known', size) =
      take_rule_lem left src.nsyms pitem nulls known in
    let (t, e', ok) =
      pack_rules-IsRules src left (i + 1) (j + (length symbols + 1)) rest nulls' known' lefts
        (omega arith) in
    (
      record {
        ritem = rule_entries symbols i ++ t.ritem;
        rlhs = src.plhs i ∷ t.rlhs;
        rrhs = j ∷ t.rrhs;
        precs = rule_prec src i symbols ∷ t.precs;
      },
      rw (short_fits j (omega arith), e, e') refl,
      record {
        items = omega (
          arith,
          length-append (rule_entries symbols i) t.ritem,
          length-rule_entries symbols i,
          ok.items,
        );
        closed = rule_entries-Closed src.nsyms i symbols t.ritem known_symbols ok.closed;
        rules = omega (arith, ok.rules);
        growing = (omega arith, Growing-weaken _ (j + 1) t.rrhs (omega arith) ok.growing);
        inside = λ r lt.
            rule_inside j (length symbols) (length pitem) (length rest) r left t.rrhs size ok.inside
              lt;
        lefts = (lefts i, ok.lefts);
      },
    )

Growing-ge : (lo i : ℕ) (xs : List ℕ) → Growing lo xs → i < length xs → lo ≤ get_or xs i 0
Growing-ge lo i [] g lt = absurd (omega arith)
Growing-ge lo zero (x ∷ xs) (le, g) lt = le
Growing-ge lo (suc i) (x ∷ xs) (le, g) lt =
    let later = Growing-ge (x + 1) i xs g (omega arith) in omega arith

Growing-lt :
    (lo i j : ℕ) (xs : List ℕ)
    → Growing lo xs
    → i < j
    → j < length xs
    → get_or xs i 0 < get_or xs j 0
Growing-lt lo i j [] g less lt = absurd (omega arith)
Growing-lt lo i zero (x ∷ xs) g less lt = absurd (omega arith)
Growing-lt lo zero (suc j) (x ∷ xs) (le, g) less lt =
    let later = Growing-ge (x + 1) j xs g (omega arith) in omega arith
Growing-lt lo (suc i) (suc j) (x ∷ xs) (le, g) less lt =
    Growing-lt (x + 1) i j xs g (omega arith) (omega arith)

AllBelow-at : (n i : ℕ) (xs : List ℕ) → 0 < n → AllBelow n xs → get_or xs i 0 < n
AllBelow-at n i [] pos below = pos
AllBelow-at n zero (x ∷ xs) pos (lt, below) = lt
AllBelow-at n (suc i) (x ∷ xs) pos (lt, below) = AllBelow-at n i xs pos below

-- The tables rrhs of the rules from rule 2 on.
right_sides :
    (st : ℕ) (lefts rrhs : List ℕ) (r r' : ℕ)
    → 0 < st
    → Growing 4 rrhs
    → st ≤ get_or (0 ∷ 0 ∷ st ∷ lefts) r 0
    → r < r'
    → r' < length rrhs + 3
    → get_or (0 ∷ 0 ∷ 1 ∷ rrhs) r 0 < get_or (0 ∷ 0 ∷ 1 ∷ rrhs) r' 0
right_sides st lefts rrhs zero r' pos growing var less lt = absurd (omega arith)
right_sides st lefts rrhs (suc zero) r' pos growing var less lt = absurd (omega arith)
right_sides st lefts rrhs (suc (suc r)) zero pos growing var less lt = absurd (omega arith)
right_sides st lefts rrhs (suc (suc r)) (suc zero) pos growing var less lt = absurd (omega arith)
right_sides st lefts rrhs (suc (suc r)) (suc (suc r')) pos growing var less lt =
    Growing-lt 0 r r' (1 ∷ rrhs) (omega arith, Growing-weaken 4 2 rrhs (omega arith) growing)
      (omega arith) (omega arith)

right_sides_inside :
    (n rules : ℕ) (rrhs : List ℕ) (r : ℕ)
    → 4 ≤ n
    → ((r' : ℕ) → r' < rules - 3 → get_or rrhs r' 0 < n)
    → r < rules
    → get_or (0 ∷ 0 ∷ 1 ∷ rrhs) r 0 < n
right_sides_inside n rules rrhs zero four h lt = omega arith
right_sides_inside n rules rrhs (suc zero) four h lt = omega arith
right_sides_inside n rules rrhs (suc (suc zero)) four h lt = omega arith
right_sides_inside n rules rrhs (suc (suc (suc r))) four h lt = h r (omega arith)

-- What the reader hands over: symbols with numbers below nsyms, as many right sides as rules, and no
-- more items than a short can number.
pub record IsSource (src : Source) : Type 0 where
  pub some_rule : 3 ≤ src.nrules
  pub tokens : 0 < src.start_symbol
  pub symbols : src.start_symbol < src.nsyms
  pub goal : src.goal < src.nsyms
  pub lefts : (r : ℕ) → src.plhs r < src.nsyms
  pub rights : Nulls (src.nrules - 3) src.pitem
  pub known : Known src.nsyms src.pitem
  pub size : src.nitems ≡ 4 + length src.pitem
  pub short : src.nitems ≤ maxshort

-- From what the reader hands over, with no more than MAXSHORT items, pack_grammar ends, with tables as closure, set_nullable and
-- generate_states rely on: symbols below nsyms, right sides one behind the other in ritem, and each
-- of them ended.
pub pack_grammar-IsTables :
    (src : Source)
    → IsSource src
    → (g : Grammar) × (precs : List (ℕ × Assoc)) × (pack_grammar src ≡ done (g, precs))
      × IsTables g
      × IsPacked g
unfolding pack_grammar
pack_grammar-IsTables src ok =
    let (t, e, rules) =
      pack_rules-IsRules src (src.nrules - 3) 3 4 src.pitem ok.rights ok.known ok.lefts
        (let size = ok.size in let short = ok.short in omega arith) in
    let a = ok.some_rule in
    let b = ok.tokens in
    let c = ok.symbols in
    let entries : List Entry = end_of 1 ∷ symbol src.goal ∷ symbol 0 ∷ end_of 2 ∷ t.ritem in
    let closed : Closed src.nsyms entries = (ok.goal, (omega arith, rules.closed)) in
    let size = ok.size in
    let count = rules.rules in
    let items = rules.items in
    let g : Grammar = tables src t in
    let all_lefts : (r : ℕ) → g.rlhs r < src.nsyms = λ r.
      AllBelow-at src.nsyms r (0 ∷ 0 ∷ src.start_symbol ∷ t.rlhs) (omega arith)
        (omega arith, (omega arith, (omega arith, rules.lefts))) in
    (
      g,
      t.precs,
      rw e refl,
      record {
        grammar = record {
          vars = omega arith;
          no_rule_zero = omega arith;
          in_range = λ i s at. (Closed-at src.nsyms entries i s closed at).0;
        };
        ordered = record {
          rules = λ r r' var less lt.
              right_sides src.start_symbol t.rlhs t.rrhs r r' b rules.growing var less
                (omega arith);
          inside = λ r lt.
              right_sides_inside src.nitems src.nrules t.rrhs r (omega arith)
                (λ r' lt'. let i = rules.inside r' lt' in omega arith) lt;
        };
        short = ok.short;
        ended = λ i s at.
            let lt : i + 1 < length entries = (Closed-at src.nsyms entries i s closed at).1 in
            omega arith;
      },
      record {
        nonempty = omega arith;
        last = last_entry src.nsyms entries (src.nitems - 1) closed (omega arith);
        left_sides = λ i r at. all_lefts r;
      },
    )
