-- ===== src/Plan/Ledger/Examples.antt =====
-- core/requirements.py: a reading of a request and of one document.
use supervisor_harness.Prelude.{
  ℕ, zero, suc, ◌≡◌, refl, false, Option, none, some, List, [], ◌∷◌, if◌then◌else◌,
}
use supervisor_harness.Text.{Text, codes, text_eq}
use supervisor_harness.Plan.Tasks.{Requirement}
use supervisor_harness.Plan.Ledger.Flat.{flat, unmarked, dashed, words}
use supervisor_harness.Plan.Ledger.{Quoted, LedgerNote, build_ledger}
use supervisor_harness.Plan.Ledger.Grounded.{Grown, build_ledger-Grown}

abbrev same : Text → Text
same t = t

abbrev document : Text → Option Text
document source =
    if text_eq source (codes "spec.md")
    then some (codes "first\nThe board is **square**.\nlast")
    else none

abbrev ranges : Text → Option (ℕ × Option ℕ)
ranges lines = if text_eq lines (codes "2") then some (2, none) else none

abbrev ones : ℕ → Text
ones zero = []
ones (suc n) = b'1' ∷ ones n

abbrev request : Text
request = codes "Build a game. It must start at once - with no menu - and keep the score."

abbrev quoted : Text → Text → Text → Quoted
quoted quote source lines = record {
  quote = quote;
  source = source;
  lines = lines;
  whole = false;
  checked_by = codes "running";
}

abbrev items : List Quoted
items =
    quoted (codes "must start at once -- with...keep the score") (codes "request") []
    ∷ quoted [] (codes "spec.md") (codes "2")
    ∷ quoted (codes "is never written anywhere") (codes "request") []
    ∷ []

abbrev ids : List Requirement → List Text
ids [] = []
ids (r ∷ rs) = Requirement.id r ∷ ids rs

test_flat : flat same (codes " a**b--c  d ") ≡ codes "ab - c d"
unfolding flat unmarked dashed words
test_flat = refl

-- The first quote stands in the request in pieces, the second is cited, the third is nowhere.
abbrev read_all : List Requirement × List LedgerNote
read_all = build_ledger same document ranges ones request (codes "reader") [] items

build_ledger-Grown_example :
    Grown same document ranges request ones
      (codes "reader")
      []
      (build_ledger same document ranges ones request (codes "reader") [] items).0
build_ledger-Grown_example =
    build_ledger-Grown same document ranges request ones (codes "reader") [] items
