-- ===== src/Jay/Pack.antt =====
-- pack_grammar of jay/reader.c: the tables of the grammar, from the rules as they were read.
pub mod Tables
use llc.Common.{ℕ, zero, suc, ◌+◌, ◌-◌}
use llc.Common.{
  Bool, true, false, Option, none, some, List, [], ◌∷◌, ◌++◌, length, get_or, Run, done, fault,
  ◌>>=◌, ltb, if◌then◌else◌,
}
use llc.Jay.Grammar.{Grammar, Entry, symbol, end_of, maxshort}
use llc.Jay.Mkpar.{Assoc, token}

-- What pack_grammar reads of a symbol's bucket; `is_term` is for `class == TERM`.
pub record Symbol : Type 0 where
  pub index : ℕ
  pub is_term : Bool
  pub prec : ℕ
  pub assoc : Assoc

-- The globals that it reads. `pitem` is from pitem[4] on, with `none` for null; rprec is `none` where
-- it is UNDEFINED; plhs is the index of the bucket.
pub record Source : Type 0 where
  pub goal : ℕ
  pub start_symbol : ℕ
  pub nsyms : ℕ
  pub nrules : ℕ
  pub nitems : ℕ
  pub plhs : ℕ → ℕ
  pub pitem : List (Option Symbol)
  pub rprec : ℕ → Option ℕ
  pub rassoc : ℕ → Assoc

-- The symbols up to the next null, and what is behind it; `none` is for a read behind the end.
unfoldable pub take_rule : List (Option Symbol) → Option (List Symbol × List (Option Symbol))
take_rule [] = none
take_rule (none ∷ pitem) = some ([], pitem)
take_rule (some s ∷ pitem) = elim (take_rule pitem) [
  | none ↦ none
  | some (symbols, rest) ↦ some (s ∷ symbols, rest)
]

-- The entries of rule `i`.
unfoldable pub rule_entries : List Symbol → ℕ → List Entry
rule_entries [] i = end_of i ∷ []
rule_entries (s ∷ symbols) i = symbol s.index ∷ rule_entries symbols i

-- `prec` and `assoc` behind the loop: those of the last terminal.
unfoldable pub last_term : ℕ × Assoc → List Symbol → ℕ × Assoc
last_term term [] = term
last_term term (s ∷ symbols) = last_term (if s.is_term then (s.prec, s.assoc) else term) symbols

-- What the loop over the rules sets, from some rule on.
pub record Rules : Type 0 where
  pub ritem : List Entry
  pub rlhs : List ℕ
  pub rrhs : List ℕ
  pub precs : List (ℕ × Assoc)

-- rprec[i] and rassoc[i].
unfoldable pub rule_prec : Source → ℕ → List Symbol → ℕ × Assoc
rule_prec src i symbols = elim (src.rprec i) [
  | none ↦ last_term (0, token) symbols
  | some prec ↦ (prec, src.rassoc i)
]

abbrev or_fault {ℓ} : {A : Type ℓ} → Option A → Run A
or_fault none = fault
or_fault (some a) = done a

-- A number that is stored in a short, where it fits.
abbrev pub short_or_fault : ℕ → Run ℕ
short_or_fault n = if ltb maxshort n then fault else done n

-- The loop, with `left` rules from rule `i` on, whose items are from entry `j` on. It is a fault where
-- `j` is no short; as each rule has an entry, `-i` is one where `j` is.
unfoldable pub pack_rules : Source → ℕ → ℕ → ℕ → List (Option Symbol) → Run Rules
pack_rules src zero i j pitem = short_or_fault j >>= λ item.
    done (record { ritem = []; rlhs = []; rrhs = item ∷ []; precs = [] })
pack_rules src (suc left) i j pitem = short_or_fault j >>= λ item.
    or_fault (take_rule pitem) >>= λ (symbols, rest).
    pack_rules src left (i + 1) (j + (length symbols + 1)) rest >>= λ t. done (record {
      ritem = rule_entries symbols i ++ t.ritem;
      rlhs = src.plhs i ∷ t.rlhs;
      rrhs = item ∷ t.rrhs;
      precs = rule_prec src i symbols ∷ t.precs;
    })

-- The tables, with the entries that pack_grammar sets before the loop.
abbrev pub tables : Source → Rules → Grammar
tables src t = record {
  start_symbol = src.start_symbol;
  nsyms = src.nsyms;
  nrules = src.nrules;
  nitems = src.nitems;
  ritem = λ i. get_or (end_of 1 ∷ symbol src.goal ∷ symbol 0 ∷ end_of 2 ∷ t.ritem) i (end_of 0);
  rlhs = λ r. get_or (0 ∷ 0 ∷ src.start_symbol ∷ t.rlhs) r 0;
  rrhs = λ r. get_or (0 ∷ 0 ∷ 1 ∷ t.rrhs) r 0;
}

-- The tables of the grammar, and rprec and rassoc from rule 3 on.
unfoldable pub pack_grammar : Source → Run (Grammar × List (ℕ × Assoc))
pack_grammar src =
    pack_rules src (src.nrules - 3) 3 4 src.pitem >>= λ t. done (tables src t, t.precs)
