-- ===== src/Plan/Criteria.antt =====
-- core/requirements.py: the criteria that a plan's account adds to its tasks, `_tests_root` and
-- `_one_suite`.
use mathlib.Core.List.{reverse}
use mathlib.Core.Option
use supervisor_harness.Prelude.{
  ℕ, Bool, true, false, not, ◌&&◌, ◌||◌, Option, none, some, List, [], ◌∷◌, ◌++◌, map, any, all,
  filter, is_empty, drop, length, ◌==◌, if◌then◌else◌,
}
use supervisor_harness.Text.{Text, codes, text_eq, starts_with, strip, rstrip}
use supervisor_harness.Store.Fold.Dict.{Dict, get}
use supervisor_harness.Plan.Tasks.{Requirement, Criterion, review, inspection}

-- `sep.join(texts)`
unfoldable pub join : Text → List Text → Text
join sep [] = []
join sep (t ∷ []) = t
join sep (t ∷ u ∷ rest) = t ++ sep ++ join sep (u ∷ rest)

-- `_listed`
unfoldable pub listed : List Text → Text
unfolding join
listed ids = join (codes ", ") ids

unfoldable pub quote_lines : Dict Requirement → List Text → List Text
unfolding get
quote_lines ledger [] = []
quote_lines ledger (rid ∷ ids) =
    let rest = quote_lines ledger ids in
    elim (get rid ledger) [
      | none ↦ rest
      | some r ↦ (codes "- " ++ rid ++ codes ": " ++ r.quote) ∷ rest
    ]

-- `_quotes`
unfoldable pub quotes : Dict Requirement → List Text → Text
unfolding quote_lines join
quotes ledger ids = join (10 ∷ []) (quote_lines ledger ids)

-- `DoDCriterion` with the given statement and the defaults of the others.
abbrev stated : Text → Criterion
stated statement = record {
  statement = statement;
  method = inspection;
  command = [];
  expect = [];
  rubric = [];
  mandatory = true;
  suite = false;
  goal_id = [];
}

unfoldable pub builder_criterion : Dict Requirement → List Text → Criterion
unfolding listed quotes
builder_criterion ledger ids =
    record (stated (codes "Delivers " ++ listed ids ++ codes " as the request states them")) {
      method = review;
      rubric =
          codes
            "Pass only if the result does each of these as quoted; fail naming each one it does not, and cite file:line for what you find:"
          ++ 10 ∷ quotes ledger ids;
    }

abbrev in_brackets : Text → Text
in_brackets rid = b'[' ∷ rid ++ b']' ∷ []

unfoldable pub marked : Text → Text → Criterion
marked root rid = record (stated (codes "A test is marked " ++ in_brackets rid)) {
  expect = root ++ codes ": " ++ in_brackets rid;
}

unfoldable pub tester_criteria : Dict Requirement → List Text → Text → List Criterion
unfolding marked listed quotes
tester_criteria ledger ids root =
    map (marked root) ids
    ++ record (stated
        (codes "The tests marked " ++ listed ids ++ codes " check what each requirement says")) {
          method = review;
          rubric =
              codes
                "Pass only if each test marked with an id drives the result as a person or a caller would and asserts what that requirement says -- not the implementation's internals, and not a weaker claim. Fail naming each test that does not, and cite file:line:"
              ++ 10 ∷ quotes ledger ids;
        }
      ∷ []

-- `_GLOB`
abbrev is_glob : ℕ → Bool
is_glob c = c == b'*' || c == b'?' || c == b'[' || c == b'{'

-- The text before the first character that a test accepts, and the rest.
unfoldable pub before : (ℕ → Bool) → Text → Text × Text
before f [] = ([], [])
before f (c ∷ t) = let rest = before f t in if f c then ([], c ∷ t) else (c ∷ rest.0, rest.1)

abbrev is_slash : ℕ → Bool
is_slash c = c == b'/'

-- `posixpath.dirname`: up to the last slash, without the slashes there unless it is all slashes.
unfoldable pub dirname : Text → Text
unfolding before rstrip
dirname t =
    let head = reverse ((before is_slash (reverse t)).1) in
    if all is_slash head then head else rstrip is_slash head

abbrev or_dot : Text → Text
or_dot t = if is_empty t then b'.' ∷ [] else t

-- The directory, or file, that one pattern comes down to.
unfoldable pub base_path : Text → Text
unfolding before dirname rstrip starts_with
base_path pattern =
    let cut = before is_glob pattern in
    let base = rstrip is_slash cut.0 in
    or_dot (
      if is_empty cut.1 || starts_with (b'/' ∷ []) (drop (length base) pattern)
      then base
      else dirname base)

-- `path.split("/")`
unfoldable pub split : Text → Text × List Text
split [] = ([], [])
split (c ∷ t) =
    let rest = split t in if is_slash c then ([], rest.0 ∷ rest.1) else (c ∷ rest.0, rest.1)

-- The parts of a path, the empty ones and the dots aside.
unfoldable pub parts_of : Text → List Text
unfolding split text_eq
parts_of path =
    let cut = split path in
    filter (λ c. not (is_empty c) && not (text_eq c (b'.' ∷ []))) (cut.0 ∷ cut.1)

-- The parts that two paths begin with.
unfoldable pub common : List Text → List Text → List Text
unfolding text_eq
common [] ys = []
common (x ∷ xs) [] = []
common (x ∷ xs) (y ∷ ys) = let rest = common xs ys in if text_eq x y then x ∷ rest else []

unfoldable pub common_all : List Text → List Text → List Text
unfolding common parts_of
common_all shared [] = shared
common_all shared (path ∷ paths) = common_all (common shared (parts_of path)) paths

unfoldable pub is_absolute : Text → Bool
unfolding starts_with
is_absolute path = starts_with (b'/' ∷ []) path

-- `posixpath.commonpath`; none where it raises, on absolute and relative paths together.
unfoldable pub commonpath : Text → List Text → Option Text
unfolding is_absolute common_all join parts_of
commonpath path paths =
    let rest = join (b'/' ∷ []) (common_all (parts_of path) paths) in
    if all is_absolute (path ∷ paths)
    then some (b'/' ∷ rest)
    else if any is_absolute (path ∷ paths)
    then none
    else some rest

-- `_tests_root`; none where `commonpath` raises.
unfoldable pub tests_root : List Text → Option Text
unfolding base_path commonpath
tests_root [] = some (b'.' ∷ [])
tests_root (pattern ∷ patterns) =
    Option.map or_dot (commonpath (base_path pattern) (map base_path patterns))

-- `TESTS_BAR` of core/dod.py
abbrev pub tests_bar : Text
tests_bar =
    codes
      "Automated tests cover the behaviour changed by this task, including at least one failure or edge case, and the suite passes"

-- `repr` is Python's rendering of a string in a message.
module _ (repr : Text → Text) where
  unfoldable pub suite_bar : List Text → Criterion → Criterion
  unfolding join strip
  suite_bar testers c = record c {
    mandatory = not (is_empty (strip c.command));
    statement =
        codes
          "The project's test suite passes; the tests of this task's requirements are written by "
        ++ join (codes ", ") (map repr testers);
  }

  -- `_one_suite`: the criteria with the first test bar replaced; none where there is none.
  unfoldable pub one_suite : List Text → List Criterion → Option (List Criterion)
  unfolding suite_bar text_eq
  one_suite testers [] = none
  one_suite testers (c ∷ dod) =
      let rest = one_suite testers dod in
      if text_eq c.statement tests_bar
      then some (suite_bar testers c ∷ dod)
      else Option.map (λ d. c ∷ d) rest
