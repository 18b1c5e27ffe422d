-- ===== src/Store/EventLog/Examples.antt =====
-- store/eventlog.py on small logs, whose records are `{11,2`: the number as ones, then the event.
use supervisor_harness.Prelude.{
  ℕ, zero, suc, ◌≡◌, refl, inl, inr, Bool, true, false, not, Option, none, some, [], ◌∷◌, ◌++◌, all,
  ◌==◌, if◌then◌else◌,
}
use supervisor_harness.Store.Lines.{Bytes, is_blank, split, cons_head, lines_of}
use supervisor_harness.Store.EventLog.{
  Codec, Lawful, is_newline, smaller, is_closed, terminate_last_line, settle, last_readable,
  look_back, last_seq_unlocked, append, append_many,
}
use supervisor_harness.Store.EventLog.Tail.{scan, last_seq_unlocked-scan}
use supervisor_harness.Store.EventLog.Written.{lines, added, append_many-lines, append-last_seq}
use supervisor_harness.Store.EventLog.Batch.{append_all, append_many-append_all}
use supervisor_harness.Text.{Text, is_space, lstrip, rstrip, strip}
use supervisor_harness.Store.EventLog.Read.{
  lead, continued, decode_byte, decode_bytes, utf8, text_lines, read_lines, read, Parsed, parsed,
  skips, escapes,
}
use supervisor_harness.Store.EventLog.Counted.{raw_lines, outcome, read-outcome}
use supervisor_harness.Store.EventLog.Torn.{append_many-read}
use supervisor_harness.Store.EventLog.Reread.{Legible, number_events, append_many-reread}
use supervisor_harness.Store.EventLog.Lettered
use mathlib.Core.Option

abbrev copies : ℕ → ℕ → Bytes
copies zero c = []
copies (suc n) c = c ∷ copies n c

abbrev number : Bytes → Option ℕ
number [] = none
number (c ∷ l) =
    let rest = number l in if c == 44 then some 0 else if c == 49 then Option.map suc rest else none

abbrev number_of : Bytes → Option ℕ
number_of [] = none
number_of (c ∷ l) = if c == 123 then number l else none

abbrev small : Codec ℕ
small = record { encode = λ n e. 123 ∷ (copies n 49 ++ 44 ∷ copies e 50); seq_of = number_of }

all-copies :
    (n c : ℕ) (x : Bytes)
    → is_newline c ≡ false
    → all (λ d. not (is_newline d)) x ≡ true
    → all (λ d. not (is_newline d)) (copies n c ++ x) ≡ true
all-copies zero c x h k = k
all-copies (suc n) c x h k = rw h (all-copies n c x h k)

all-copies_alone :
    (n c : ℕ) → is_newline c ≡ false → all (λ d. not (is_newline d)) (copies n c) ≡ true
all-copies_alone zero c h = refl
all-copies_alone (suc n) c h = rw h (all-copies_alone n c h)

number-copies : (n : ℕ) (x : Bytes) → number (copies n 49 ++ 44 ∷ x) ≡ some n
number-copies zero x = refl
number-copies (suc n) x = rw (number-copies n x) refl

small-Lawful : Lawful small
unfolding is_newline is_blank
small-Lawful = record {
  one_line = λ n e. all-copies n 49 (44 ∷ copies e 50) refl (all-copies_alone e 50 refl);
  not_blank = λ n e. refl;
  seq_of-encode = λ n e. number-copies n (copies e 50);
}

-- `{1,` and a record torn after `{1`.
abbrev torn : Bytes
torn = 123 ∷ 49 ∷ 44 ∷ 10 ∷ 123 ∷ 49 ∷ []

-- A line that is no record.
abbrev damaged : Bytes
damaged = 120 ∷ []

test_last : last_seq_unlocked small torn ≡ some 1
unfolding last_seq_unlocked look_back scan settle lines_of split cons_head is_blank is_newline
    smaller last_readable
test_last = refl

test_damaged : append small 3 damaged ≡ (120 ∷ 10 ∷ [], none)
unfolding append terminate_last_line is_closed last_seq_unlocked look_back settle lines_of split
    cons_head is_blank is_newline smaller last_readable
test_damaged = refl

test_append :
    append small 1 torn
    ≡ (123 ∷ 49 ∷ 44 ∷ 10 ∷ 123 ∷ 49 ∷ 10 ∷ 123 ∷ 49 ∷ 49 ∷ 44 ∷ 50 ∷ 10 ∷ [], some 2)
unfolding append terminate_last_line is_closed last_seq_unlocked look_back settle lines_of split
    cons_head is_blank is_newline smaller last_readable
test_append = refl

last_seq_unlocked-scan_example :
    last_seq_unlocked small torn ≡ scan small (lines_of is_newline torn)
last_seq_unlocked-scan_example = last_seq_unlocked-scan small torn

append_many-lines_example :
    lines ((append_many small (1 ∷ 2 ∷ []) torn).0)
    ≡ lines torn ++ added small (last_seq_unlocked small torn) (1 ∷ 2 ∷ [])
append_many-lines_example = append_many-lines small small-Lawful (1 ∷ 2 ∷ []) torn

append-last_seq_example :
    last_seq_unlocked small ((append small 1 torn).0) ≡ (append small 1 torn).1
append-last_seq_example = append-last_seq small small-Lawful 1 torn

append_many-append_all_example :
    (append_many small (1 ∷ 2 ∷ []) torn).0 ≡ append_all small (1 ∷ 2 ∷ []) torn
append_many-append_all_example = append_many-append_all small small-Lawful (1 ∷ 2 ∷ []) torn

-- A record of one character, torn inside a second one.
abbrev torn_inside : Bytes
torn_inside = 123 ∷ 195 ∷ []

test_utf8 : utf8 (123 ∷ 195 ∷ 169 ∷ 226 ∷ 130 ∷ 172 ∷ []) ≡ some (123 ∷ 233 ∷ 8364 ∷ [])
unfolding utf8 decode_bytes decode_byte lead continued
test_utf8 = refl

-- A line of the small log; one with a 0 in the place of its `{` is no object.
abbrev event_of : Text → Parsed ℕ
event_of [] = skips
event_of (c ∷ l) =
    if c == b'0' then escapes else elim (number_of (c ∷ l)) [ none ↦ skips | some n ↦ parsed n ]

append_many-read_example : read event_of ((append_many small (1 ∷ 2 ∷ []) torn_inside).0) ≡ none
unfolding decode_bytes decode_byte lead continued
append_many-read_example =
    append_many-read small event_of 1 (2 ∷ []) torn_inside
      (record { need = 1; lo = 128; hi = 191; bits = 3 }, 123 ∷ [], 0, refl, refl)

-- A record, a blank line, a damaged one and the beginning of one.
abbrev mixed : Bytes
mixed = 123 ∷ 49 ∷ 44 ∷ 10 ∷ 32 ∷ 10 ∷ 33 ∷ 10 ∷ 123 ∷ 44 ∷ []

mixed_test : read event_of mixed ≡ some (1 ∷ 0 ∷ [], 1)
unfolding read read_lines utf8 decode_bytes decode_byte lead continued text_lines split cons_head
    strip rstrip lstrip is_space
mixed_test = refl

-- A line `0` between the same records ends the read.
escaped_test : read event_of (123 ∷ 49 ∷ 44 ∷ 10 ∷ 48 ∷ 10 ∷ 123 ∷ 44 ∷ []) ≡ none
unfolding read read_lines utf8 decode_bytes decode_byte lead continued text_lines split cons_head
    strip rstrip lstrip is_space
escaped_test = refl

read-outcome_example : read event_of mixed ≡ outcome event_of (raw_lines mixed)
unfolding utf8 decode_bytes decode_byte lead continued
read-outcome_example = read-outcome event_of mixed mixed refl

-- Records of a number and one of two letters.
abbrev letter_of : ℕ × Bool → ℕ
letter_of (n, true) = 97
letter_of (n, false) = 98

letter_of-IsLetter : (e : ℕ × Bool) → Lettered.IsLetter (letter_of e)
letter_of-IsLetter (n, true) = inl refl
letter_of-IsLetter (n, false) = inr refl

abbrev lettered_event : ℕ → ℕ → Option (ℕ × Bool)
lettered_event n c = some (n, c == 97)

abbrev renumbered : ℕ → ℕ × Bool → ℕ × Bool
renumbered n e = (n, e.1)

abbrev AnyRecord : ℕ × Bool → Type 0
AnyRecord e = Unit

lettered_event_lem :
    (n : ℕ) (e : ℕ × Bool) → AnyRecord e → lettered_event n (letter_of e) ≡ some (renumbered n e)
lettered_event_lem n (m, true) p = refl
lettered_event_lem n (m, false) p = refl

lettered-Legible :
    Legible
      (Lettered.lettered letter_of lettered_event)
      (Lettered.event_of letter_of lettered_event)
      renumbered
      AnyRecord
lettered-Legible =
    Lettered.lettered-Legible letter_of lettered_event letter_of-IsLetter renumbered AnyRecord
      lettered_event_lem

-- `{1,a` and a record torn after `{1`.
abbrev torn_letters : Bytes
torn_letters = 123 ∷ 49 ∷ 44 ∷ 97 ∷ 10 ∷ 123 ∷ 49 ∷ []

append_many-reread_example :
    read (Lettered.event_of letter_of lettered_event) (
      (append_many
        (Lettered.lettered letter_of lettered_event)
        ((0, false) ∷ (0, true) ∷ [])
        torn_letters).0)
    ≡ some ((1, true) ∷ number_events renumbered 2 ((0, false) ∷ (0, true) ∷ []), 1)
unfolding read read_lines utf8 decode_bytes decode_byte lead continued text_lines split cons_head
    strip rstrip lstrip is_space last_seq_unlocked look_back settle lines_of is_blank is_newline
    smaller last_readable
append_many-reread_example =
    append_many-reread (Lettered.lettered letter_of lettered_event)
      (Lettered.event_of letter_of lettered_event) renumbered lettered-Legible (0, false)
      ((0, true) ∷ []) torn_letters 1 ((1, true) ∷ []) 1 (tt, (tt, tt)) refl refl
