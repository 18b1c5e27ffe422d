-- ===== src/Store/EventLog/Lettered.antt =====
-- Records for the examples: `{`, the number as ones, `,` and a letter.
use supervisor_harness.Prelude.{
  ℕ, zero, suc, ◌≡◌, refl, ap, sym, ◌∙◌, ◌⊎◌, inl, inr, Bool, true, false, not, ◌||◌, Option, none,
  some, [], ◌∷◌, ◌++◌, all, is_empty, ◌==◌, if◌then◌else◌,
}
use supervisor_harness.Text.{Text, is_space, strip, strip_closed}
use supervisor_harness.Store.Lines.{Bytes, is_blank}
use supervisor_harness.Store.EventLog.{Codec, Lawful, is_newline}
use supervisor_harness.Store.EventLog.Reread.{Legible}
use supervisor_harness.Store.EventLog.Read.{
  lead, decode_byte, decode_bytes, utf8, Parsed, parsed, skips,
}
use supervisor_harness.Store.EventLog.Utf8.{utf8-append}

abbrev ones : ℕ → Bytes
ones zero = []
ones (suc n) = 49 ∷ ones n

abbrev pub line : ℕ → ℕ → Bytes
line n letter = 123 ∷ ((ones n ++ 44 ∷ []) ++ letter ∷ [])

-- The number and the letter after the brace.
abbrev pub parts : Bytes → Option (ℕ × ℕ)
parts [] = none
parts (c ∷ l) =
    let rest = parts l in
    if c == 49
    then elim rest [ none ↦ none | some p ↦ some (suc p.0, p.1) ]
    else elim l [ [] ↦ none | (d ∷ more) ↦ if c == 44 then some (0, d) else none ]

abbrev pub parts_of : Bytes → Option (ℕ × ℕ)
parts_of [] = none
parts_of (c ∷ l) = if c == 123 then parts l else none

parts-ones : (n letter : ℕ) → parts ((ones n ++ 44 ∷ []) ++ letter ∷ []) ≡ some (n, letter)
parts-ones zero letter = refl
parts-ones (suc n) letter = rw (parts-ones n letter) refl

pub parts_of-line : (n letter : ℕ) → parts_of (line n letter) ≡ some (n, letter)
parts_of-line n letter = parts-ones n letter

all-ones :
    (f : ℕ → Bool) (n letter : ℕ)
    → f 49 ≡ true
    → f 44 ≡ true
    → f letter ≡ true
    → all f ((ones n ++ 44 ∷ []) ++ letter ∷ []) ≡ true
all-ones f zero letter h k l = rw (k, l) refl
all-ones f (suc n) letter h k l = rw h (all-ones f n letter h k l)

pub all-line :
    (f : ℕ → Bool) (n letter : ℕ)
    → f 123 ≡ true
    → f 49 ≡ true
    → f 44 ≡ true
    → f letter ≡ true
    → all f (line n letter) ≡ true
all-line f n letter b h k l = rw b (all-ones f n letter h k l)

pub line_not_blank : (n letter : ℕ) → is_blank (line n letter) ≡ false
unfolding is_blank
line_not_blank n letter = refl

pub strip-line : (n letter : ℕ) → is_space letter ≡ false → strip (line n letter) ≡ line n letter
unfolding is_space
strip-line n letter h = strip_closed 123 letter (ones n ++ 44 ∷ []) refl h

utf8-ones : (n : ℕ) → utf8 (ones n) ≡ some (ones n)
unfolding utf8 decode_bytes decode_byte lead
utf8-ones zero = refl
utf8-ones (suc n) = utf8-append (49 ∷ []) (ones n) (49 ∷ []) (ones n) refl (utf8-ones n)

pub utf8-line :
    (n letter : ℕ)
    → utf8 (letter ∷ []) ≡ some (letter ∷ [])
    → utf8 (line n letter) ≡ some (line n letter)
unfolding utf8 decode_bytes decode_byte lead
utf8-line n letter h =
    utf8-append (123 ∷ []) ((ones n ++ 44 ∷ []) ++ letter ∷ []) (123 ∷ [])
      ((ones n ++ 44 ∷ []) ++ letter ∷ []) refl
      (utf8-append (ones n ++ 44 ∷ []) (letter ∷ []) (ones n ++ 44 ∷ []) (letter ∷ [])
        (utf8-append (ones n) (44 ∷ []) (ones n) (44 ∷ []) (utf8-ones n) refl) h)

-- `a` or `b`
abbrev pub IsLetter : ℕ → Type 0
IsLetter c = (c ≡ 97) ⊎ (c ≡ 98)

letter_not_space : (c : ℕ) → IsLetter c → is_space c ≡ false
unfolding is_space
letter_not_space c (inl e) = ap is_space e
letter_not_space c (inr e) = ap is_space e

letter_no_newline : (c : ℕ) → IsLetter c → not (is_newline c) ≡ true
unfolding is_newline
letter_no_newline c (inl e) = ap (λ z. not (is_newline z)) e
letter_no_newline c (inr e) = ap (λ z. not (is_newline z)) e

letter_in_line : (c : ℕ) → IsLetter c → not (c == 10 || c == 13) ≡ true
letter_in_line c (inl e) = ap (λ z. not (z == 10 || z == 13)) e
letter_in_line c (inr e) = ap (λ z. not (z == 10 || z == 13)) e

utf8-letter : (c : ℕ) → IsLetter c → utf8 (c ∷ []) ≡ some (c ∷ [])
unfolding utf8 decode_bytes decode_byte lead
utf8-letter c (inl e) = ap (λ z. utf8 (z ∷ [])) e ∙ ap (λ z. some (z ∷ [])) (sym e)
utf8-letter c (inr e) = ap (λ z. utf8 (z ∷ [])) e ∙ ap (λ z. some (z ∷ [])) (sym e)

module _ {Event : Type 0} (letter_of : Event → ℕ) (sample : ℕ → ℕ → Option Event) where
  abbrev number_of : Option (ℕ × ℕ) → Option ℕ
  number_of none = none
  number_of (some p) = some p.0

  -- A line that is no record is skipped.
  abbrev or_skips : Option Event → Parsed Event
  or_skips none = skips
  or_skips (some e) = parsed e

  abbrev event_at : Option (ℕ × ℕ) → Parsed Event
  event_at none = skips
  event_at (some p) = or_skips (sample p.0 p.1)

  abbrev pub lettered : Codec Event
  lettered = record { encode = λ n e. line n (letter_of e); seq_of = λ b. number_of (parts_of b) }

  abbrev pub event_of : Text → Parsed Event
  event_of t = event_at (parts_of t)

  module _ (letters : (e : Event) → IsLetter (letter_of e)) where
    pub lettered-Lawful : Lawful lettered
    unfolding is_newline
    lettered-Lawful = record {
      one_line = λ n e.
          all-line (λ c. not (is_newline c)) n (letter_of e) refl refl refl
            (letter_no_newline (letter_of e) (letters e));
      not_blank = λ n e. line_not_blank n (letter_of e);
      seq_of-encode = λ n e. ap number_of (parts_of-line n (letter_of e));
    }

    pub lettered-Legible :
        (numbered : ℕ → Event → Event) (P : Event → Type 0)
        → ((n : ℕ) (e : Event) → P e → sample n (letter_of e) ≡ some (numbered n e))
        → Legible lettered event_of numbered P
    lettered-Legible numbered P sampled = record {
      text = λ n e. line n (letter_of e);
      utf8-encode = λ n e p. utf8-line n (letter_of e) (utf8-letter (letter_of e) (letters e));
      one_line = λ n e p.
          all-line (λ c. not (c == 10 || c == 13)) n (letter_of e) refl refl refl
            (letter_in_line (letter_of e) (letters e));
      not_blank = λ n e p.
          ap is_empty (strip-line n (letter_of e) (letter_not_space (letter_of e) (letters e)));
      event_of-text = λ n e p.
          ap (λ z. event_at (parts_of z))
            (strip-line n (letter_of e) (letter_not_space (letter_of e) (letters e)))
          ∙ ap event_at (parts_of-line n (letter_of e))
          ∙ ap or_skips (sampled n e p);
    }
