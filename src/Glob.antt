-- ===== src/Glob.antt =====
-- Python's `fnmatch.fnmatch` on a POSIX system, which `core/paths.py` matches paths with.
-- A pattern becomes a list of items, as `fnmatch.translate` makes a regular expression of it.
pub mod Literal
use supervisor_harness.Prelude.{
  ℕ, zero, suc, ◌+◌, Bool, true, false, not, ◌&&◌, ◌||◌, Option, none, some, List, [], ◌∷◌, any,
  length, leb, ltb, ◌==◌, if◌then◌else◌,
}
use supervisor_harness.Text.{Text}
use mathlib.Core.Option

-- The members of a bracket: from `lo` to `hi`; a single character is its own range.
pub record Range : Type 0 where
  pub lo : ℕ
  pub hi : ℕ

pub data Item : Type 0 where
  star one_char : Item
  char : ℕ → Item
  class : Bool → List Range → Item

-- The text before the first `]`.
until_close : Text → Option Text
until_close [] = none
until_close (c ∷ t) =
    let rest = until_close t in if c == b']' then some [] else Option.map (λ s. c ∷ s) rest

-- A `]` that stands first is a member.
after_first : Text → Option Text
unfolding until_close
after_first [] = none
after_first (c ∷ t) =
    if c == b']' then Option.map (λ s. c ∷ s) (until_close t) else until_close (c ∷ t)

-- What stands between a `[` and the `]` that closes it, if one does.
class_body : Text → Option Text
unfolding after_first
class_body [] = none
class_body (c ∷ t) =
    if c == b'!' then Option.map (λ s. c ∷ s) (after_first t) else after_first (c ∷ t)

ranges : Text → List Range
ranges (a ∷ d ∷ b ∷ t) =
    let range = record { lo = a; hi = b } ∷ ranges t in
    let single = record { lo = a; hi = a } ∷ ranges (d ∷ b ∷ t) in
    if d == b'-' then range else single
ranges (a ∷ t) = record { lo = a; hi = a } ∷ ranges t
ranges [] = []

-- Ranges that hold nothing are cut out before the `!` is looked for.
drop_empty_ranges : Text → Text
drop_empty_ranges (a ∷ d ∷ b ∷ t) =
    let rest = drop_empty_ranges t in if d == b'-' && ltb b a then rest else a ∷ d ∷ b ∷ t
drop_empty_ranges t = t

negated : Text → Item
unfolding ranges
negated [] = class false []
negated (c ∷ t) = if c == b'!' then class true (ranges t) else class false (ranges (c ∷ t))

class_item : Text → Item
unfolding negated drop_empty_ranges
class_item [] = class false []
class_item (c ∷ t) =
    if c == b'!' then class true (ranges t) else negated (drop_empty_ranges (c ∷ t))

abbrev bracket : ℕ → Option Text → Item
bracket c none = char c
bracket c (some stuff) = class_item stuff

-- The item that begins with `c`, before `t`.
next_item : ℕ → Text → Item
unfolding class_body class_item
next_item c t =
    if c == b'*'
    then star
    else if c == b'?'
    then one_char
    else if c == b'['
    then bracket c (class_body t)
    else char c

-- How much of `t` that item takes up.
width : ℕ → Text → ℕ
unfolding class_body
width c t =
    if c == b'[' then elim (class_body t) [ none ↦ 0 | some stuff ↦ length stuff + 1 ] else 0

-- The items of a pattern, `skip` characters of which belong to the item before.
items_from : ℕ → Text → List Item
unfolding next_item width
items_from skip [] = []
items_from (suc skip) (c ∷ t) = items_from skip t
items_from zero (c ∷ t) = next_item c t ∷ items_from (width c t) t

in_range : ℕ → Range → Bool
in_range x r = leb r.lo x && leb x r.hi

accepts : Item → ℕ → Bool
unfolding in_range
accepts star x = false
accepts one_char x = true
accepts (char c) x = c == x
accepts (class negate rs) x = if negate then not (any (in_range x) rs) else any (in_range x) rs

some_suffix : (Text → Bool) → Text → Bool
some_suffix f [] = f []
some_suffix f (c ∷ t) = f (c ∷ t) || some_suffix f t

-- The whole text fits the items.
fits : List Item → Text → Bool
unfolding some_suffix accepts
fits [] [] = true
fits [] (x ∷ t) = false
fits (star ∷ is) t = some_suffix (fits is) t
fits (i ∷ is) [] = false
fits (i ∷ is) (x ∷ t) = accepts i x && fits is t

-- `fnmatch.fnmatch(name, pat)`
unfoldable pub fnmatch : Text → Text → Bool
unfolding items_from fits
fnmatch name pat = fits (items_from 0 pat) name
