-- ===== src/Plan/Ledger/Flat.antt =====
-- core/requirements.py, `_flat` and the searches on text: `re.split`, `str.find`, `in`, `splitlines`.
use supervisor_harness.Prelude.{
  ℕ, zero, suc, Bool, true, false, not, ◌&&◌, ◌||◌, Option, none, some, List, [], ◌∷◌, filter,
  length, is_empty, leb, ◌==◌, if◌then◌else◌,
}
use supervisor_harness.Text.{Text, is_space, starts_with, drop_prefix}
use supervisor_harness.Store.Lines.{split, cons_head}
use supervisor_harness.Plan.Criteria.{join}

-- `translate(_MARKS)`
unfoldable pub unmarked : Text → Text
unmarked [] = []
unmarked (c ∷ t) =
    let rest = unmarked t in
    if c == b'*' || c == b'`' || c == b'|'
    then rest
    else if c == 8220 || c == 8221
    then b'"' ∷ rest
    else if c == 8216 || c == 8217
    then 39 ∷ rest
    else c ∷ rest

-- A dash and a space on both sides.
abbrev spaced : Text → Text
spaced rest = 32 ∷ b'-' ∷ 32 ∷ rest

-- `_DASHES.sub(" - ", t)`, where `hyphen` says that a `-` stands before `t`. The spaces about a dash,
-- which the pattern takes too, are dropped by the split that follows.
unfoldable pub dashed : Bool → Text → Text
dashed hyphen [] = if hyphen then b'-' ∷ [] else []
dashed hyphen (c ∷ t) = elim (c == b'-') [
  | true ↦ elim hyphen [ true ↦ spaced (dashed false t) | false ↦ dashed true t ]
  | false ↦
      let rest = dashed false t in
      let own = if c == 8212 || c == 8211 then spaced rest else c ∷ rest in
      if hyphen then b'-' ∷ own else own
]

-- `t.split()`
unfoldable pub words : Text → List Text
unfolding split is_space
words t = filter (λ w. not (is_empty w)) (split is_space t)

-- `_flat`
unfoldable pub flat : (Text → Text) → Text → Text
unfolding unmarked dashed words join
flat casefold t = casefold (join (32 ∷ []) (words (dashed false (unmarked t))))

unfoldable pub dots : ℕ → Text → Text
dots zero t = t
dots (suc n) t = b'.' ∷ dots n t

-- The head of the list continues what is being read.
abbrev onto_first : (Text → Text) → List Text → List Text
onto_first f [] = f [] ∷ []
onto_first f (t ∷ ts) = f t ∷ ts

-- A piece is closed after three dots or more, and else the dots belong to it.
abbrev settle_dots : ℕ → List Text → List Text
settle_dots n ts = if leb 3 n then [] ∷ ts else onto_first (dots n) ts

-- `_ELLIPSIS.split(t)`, after `n` dots.
unfoldable pub pieces_after : ℕ → Text → List Text
unfolding dots
pieces_after n [] = settle_dots n ([] ∷ [])
pieces_after n (c ∷ t) = elim (c == b'.') [
  | true ↦ pieces_after (suc n) t
  | false ↦
      let rest = pieces_after 0 t in
      settle_dots n (if c == 8230 then [] ∷ rest else onto_first (λ u. c ∷ u) rest)
]

abbrev pub pieces : Text → List Text
pieces t = pieces_after 0 t

abbrev pub is_longer : ℕ → Text → Bool
is_longer n t = leb n (length t)

-- What follows the first occurrence of a piece.
unfoldable pub after_first : Text → Text → Option Text
unfolding starts_with drop_prefix
after_first p [] = if is_empty p then some [] else none
after_first p (c ∷ t) =
    let rest = after_first p t in
    if starts_with p (c ∷ t) then some (drop_prefix p (c ∷ t)) else rest

unfoldable pub find_in_order : List Text → Text → Bool
unfolding after_first
find_in_order [] t = true
find_in_order (p ∷ ps) t = elim (after_first p t) [
  | none ↦ false
  | some rest ↦ find_in_order ps rest
]

-- `p in t`
unfoldable pub contains : Text → Text → Bool
unfolding after_first
contains p t = elim (after_first p t) [ none ↦ false | some rest ↦ true ]

abbrev begins : ℕ → Text → Bool
begins d [] = false
begins d (c ∷ t) = c == d

-- `\r\n` ends one line.
unfoldable pub one_end : Text → Text
one_end [] = []
one_end (c ∷ t) = let rest = one_end t in if c == 13 && begins 10 t then rest else c ∷ rest

unfoldable pub ends_line : ℕ → Bool
ends_line c = leb 10 c && leb c 13 || leb 28 c && leb c 30 || c == 133 || c == 8232 || c == 8233

unfoldable pub lines_of_text : Text → List Text
unfolding ends_line cons_head
lines_of_text [] = []
lines_of_text (c ∷ t) =
    let rest = lines_of_text t in if ends_line c then [] ∷ rest else cons_head c rest

-- `t.splitlines()`
unfoldable pub splitlines : Text → List Text
unfolding one_end lines_of_text
splitlines t = lines_of_text (one_end t)

unfoldable pub take_lines : ℕ → List Text → List Text
take_lines zero lines = []
take_lines (suc n) [] = []
take_lines (suc n) (l ∷ lines) = l ∷ take_lines n lines
