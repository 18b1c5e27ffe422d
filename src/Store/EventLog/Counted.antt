-- ===== src/Store/EventLog/Counted.antt =====
-- store/eventlog.py, `read`: what becomes of each line of the file.
use supervisor_harness.Prelude.{
  ℕ, ◌≡◌, refl, Bool, true, false, not, ◌||◌, Option, none, some, List, [], ◌∷◌, map, filter, any,
  length, is_empty, if◌then◌else◌, ◌==◌, arith,
}
use supervisor_harness.Text.{Text, strip}
use supervisor_harness.Store.Lines.{Bytes, split}
use supervisor_harness.Store.EventLog.Read.{
  Parsed, parsed, skips, escapes, utf8, text_lines, read_lines, read,
}

-- The lines as they stand in the text.
abbrev pub raw_lines : Text → List Text
raw_lines t = split (λ c. c == 10 || c == 13) t

module _ {Event : Type 0} (event_of : Text → Parsed Event) where
  -- A line that is not blank and whose exception escapes.
  unfoldable pub is_escaping : Text → Bool
  unfolding strip
  is_escaping l = elim (is_empty (strip l)) [
    | true ↦ false
    | false ↦ elim (event_of (strip l)) [ parsed e ↦ false | skips ↦ false | escapes ↦ true ]
  ]

  -- A line that is not blank and whose exception is counted.
  unfoldable pub is_skipped : Text → Bool
  unfolding strip
  is_skipped l = elim (is_empty (strip l)) [
    | true ↦ false
    | false ↦ elim (event_of (strip l)) [ parsed e ↦ false | skips ↦ true | escapes ↦ false ]
  ]

  -- The events of the lines that are not blank.
  unfoldable pub events_of : List Text → List Event
  unfolding strip
  events_of [] = []
  events_of (l ∷ ls) = elim (is_empty (strip l)) [
    | true ↦ events_of ls
    | false ↦ elim (event_of (strip l)) [
      | parsed e ↦ e ∷ events_of ls
      | skips ↦ events_of ls
      | escapes ↦ events_of ls
    ]
  ]

  abbrev pub outcome : List Text → Option (List Event × ℕ)
  outcome raw =
      if any is_escaping raw then none else some (events_of raw, length (filter is_skipped raw))

  read_lines-outcome :
      (raw : List Text)
      → read_lines event_of (filter (λ l. not (is_empty l)) (map strip raw)) ≡ outcome raw
  unfolding read_lines is_escaping is_skipped events_of
  read_lines-outcome [] = refl
  read_lines-outcome (l ∷ raw) = ground (arith, read_lines-outcome raw)

  -- A read of a file that is UTF-8: blank lines are passed over, every other line is an event, in its
  -- place, or counted as skipped, unless an exception that is not caught escapes on one of them: then
  -- the read gives nothing.
  pub read-outcome :
      (b : Bytes) (t : Text) → utf8 b ≡ some t → read event_of b ≡ outcome (raw_lines t)
  unfolding read text_lines
  read-outcome b t h = rw (h, read) (read_lines-outcome (raw_lines t))
