-- ===== src/Store/EventLog/Reread.antt =====
-- store/eventlog.py: a read after an append gives what was read before, and the new events.

use supervisor_harness.Prelude.{
  ℕ, suc, ◌+◌, ◌≡◌, refl, sym, ap, ◌∙◌, inl, inr, true, false, not, ◌||◌, some, List, [], ◌∷◌, ◌++◌,
  map, filter, filter_yes, all, All, is_empty, append-nil, append_assoc, arith, Bool-cases,
  Option-cases, ◌==◌,
}
use supervisor_harness.Text.{Text, strip}
use supervisor_harness.Store.Lines.{Bytes, split-line}
use supervisor_harness.Store.EventLog.{
  Codec, is_closed, terminate_last_line, last_seq_unlocked, write_all, append_many,
}
use supervisor_harness.Store.EventLog.Batch.{append_many-some}
use supervisor_harness.Store.EventLog.Written.{IsTerminated, terminate_last_line-IsTerminated}
use supervisor_harness.Store.EventLog.Read.{
  decode_bytes, utf8, text_lines, read_lines, read, Parsed, parsed,
}
use supervisor_harness.Store.EventLog.Utf8.{
  none≢some, some_inj, utf8-append, newline_utf8, utf8-newline, text_lines-append, text_lines-nil,
}

-- Ending the last line changes no line of the text.
terminated-utf8 :
    (b : Bytes) (t : Text)
    → utf8 b ≡ some t
    → (t' : Text) × (utf8 (terminate_last_line b) ≡ some t') × (text_lines t' ≡ text_lines t)
unfolding terminate_last_line
terminated-utf8 [] t h = (t, h, refl)
terminated-utf8 (c ∷ b) t h = elim (Bool-cases (is_closed (c ∷ b))) [
  | inl y ↦ (t, rw y h, refl)
  | inr n ↦ (
    t ++ 10 ∷ [],
    rw n (utf8-append (c ∷ b) (10 ∷ []) t (10 ∷ []) h newline_utf8),
    text_lines-append t [] ∙ ap (λ l. text_lines t ++ l) text_lines-nil ∙ append-nil (text_lines t),
  )
]

-- What is written after the ended last line is lines of its own.
terminated-append :
    (a w : Bytes) (t u : Text)
    → IsTerminated a
    → utf8 a ≡ some t
    → utf8 w ≡ some u
    → (whole : Text) × (utf8 (a ++ w) ≡ some whole)
      × (text_lines whole ≡ text_lines t ++ text_lines u)
unfolding utf8 decode_bytes
terminated-append a w t u (inl e) h k =
    let none_read : [] ≡ t = some_inj (sym (ap utf8 e) ∙ h) in
    (
      u,
      ap (λ z. utf8 (z ++ w)) e ∙ k,
      sym (ap (λ z. z ++ text_lines u) text_lines-nil)
          ∙ ap (λ z. text_lines z ++ text_lines u) none_read,
    )
terminated-append a w t u (inr (l, e)) h k =
    let (s, read, same) = utf8-newline l t (ap utf8 (sym e) ∙ h) in
    let lines : text_lines t ≡ text_lines s =
      ap text_lines same
      ∙ text_lines-append s []
      ∙ ap (λ z. text_lines s ++ z) text_lines-nil
      ∙ append-nil (text_lines s) in
    (
      t ++ u,
      utf8-append a w t u h k,
      ap (λ z. text_lines (z ++ u)) same
          ∙ ap text_lines (append_assoc s (10 ∷ []) u)
          ∙ text_lines-append s u
          ∙ ap (λ z. z ++ text_lines u) (sym lines),
    )

-- The events of a batch with their numbers.
unfoldable pub number_events : {Event : Type 0} → (ℕ → Event → Event) → ℕ → List Event → List Event
number_events numbered n [] = []
number_events numbered n (e ∷ es) = numbered n e ∷ number_events numbered (suc n) es

module _ {Event : Type 0} (codec : Codec Event) (event_of : Text → Parsed Event)
    (numbered : ℕ → Event → Event) where
  -- For the events of `P`: the line that is written is text, in one line, that reads back as the event
  -- with the number it was given.
  pub record Legible (P : Event → Type 0) : Type 0 where
    pub text : ℕ → Event → Text
    pub utf8-encode : (n : ℕ) (e : Event) → P e → utf8 (codec.encode n e) ≡ some (text n e)
    pub one_line : (n : ℕ) (e : Event) → P e → all (λ c. not (c == 10 || c == 13)) (text n e) ≡ true
    pub not_blank : (n : ℕ) (e : Event) → P e → is_empty (strip (text n e)) ≡ false
    pub event_of-text :
        (n : ℕ) (e : Event) → P e → event_of (strip (text n e)) ≡ parsed (numbered n e)

  read_lines-append :
      (xs ys : List Text) (r q : List Event × ℕ)
      → read_lines event_of xs ≡ some r
      → read_lines event_of ys ≡ some q
      → read_lines event_of (xs ++ ys) ≡ some (r.0 ++ q.0, r.1 + q.1)
  unfolding read_lines
  read_lines-append [] ys r q h g = ground arith
  read_lines-append (x ∷ xs) ys r q h g = elim (Option-cases (read_lines event_of xs)) [
    | inl e ↦ ground arith
    | inr (before, e) ↦ ground (arith, read_lines-append xs ys before q e g)
  ]

  module _ {P : Event → Type 0} (legible : Legible P) where
    written : ℕ → List Event → Text
    written n [] = []
    written n (e ∷ es) = legible.text n e ++ 10 ∷ written (suc n) es

    utf8-write_all :
        (n : ℕ) (es : List Event) → All P es → utf8 (write_all codec n es) ≡ some (written n es)
    unfolding write_all written utf8 decode_bytes
    utf8-write_all n [] h = refl
    utf8-write_all n (e ∷ es) (p, h) =
        utf8-append (codec.encode n e) (10 ∷ write_all codec (suc n) es) (legible.text n e)
          (10 ∷ written (suc n) es) (legible.utf8-encode n e p)
          (utf8-append (10 ∷ []) (write_all codec (suc n) es) (10 ∷ []) (written (suc n) es)
            newline_utf8 (utf8-write_all (suc n) es h))

    text_lines-text :
        (n : ℕ) (e : Event) → P e → text_lines (legible.text n e) ≡ strip (legible.text n e) ∷ []
    unfolding text_lines
    text_lines-text n e p =
        ap (λ l. filter (λ y. not (is_empty y)) (map strip l))
          (split-line (λ c. c == 10 || c == 13) (legible.text n e) (legible.one_line n e p))
        ∙ filter_yes (λ y. not (is_empty y)) (strip (legible.text n e)) []
            (ap not (legible.not_blank n e p))

    read_lines-written :
        (n : ℕ) (es : List Event)
        → All P es
        → read_lines event_of (text_lines (written n es)) ≡ some (number_events numbered n es, 0)
    unfolding written number_events read_lines
    read_lines-written n [] h = ap (read_lines event_of) text_lines-nil
    read_lines-written n (e ∷ es) (p, h) =
        ap (read_lines event_of) (
          text_lines-append (legible.text n e) (written (suc n) es)
          ∙ ap (λ l. l ++ text_lines (written (suc n) es)) (text_lines-text n e p))
        ∙ (rw (read_lines, legible.event_of-text n e p, read_lines-written (suc n) es h) refl)

    -- What a read gave before a batch it gives after it, and then the events of the batch with their
    -- numbers; no more lines are skipped. The log is one that can be read and whose last number is
    -- found, its last line torn or not, and each record is one line of text that reads back.
    pub append_many-reread :
        (e : Event) (es : List Event) (b : Bytes) (n : ℕ) (events : List Event) (skipped : ℕ)
        → All P (e ∷ es)
        → read event_of b ≡ some (events, skipped)
        → last_seq_unlocked codec b ≡ some n
        → read event_of (append_many codec (e ∷ es) b).0
          ≡ some (events ++ number_events numbered (suc n) (e ∷ es), skipped)
    unfolding read
    append_many-reread e es b n events skipped ok h k = elim (Option-cases (utf8 b)) [
      | inl f ↦ absurd (none≢some (rw (read, f) at h))
      | inr (t, f) ↦
          let found : read_lines event_of (text_lines t) ≡ some (events, skipped) =
            rw (read, f) at h in
          let (t', g, same) = terminated-utf8 b t f in
          let w = write_all codec (suc n) (e ∷ es) in
          let u = written (suc n) (e ∷ es) in
          let (whole, r, lines) =
            terminated-append (terminate_last_line b) w t' u (terminate_last_line-IsTerminated b) g
              (utf8-write_all (suc n) (e ∷ es) ok) in
          let all_lines = lines ∙ ap (λ z. z ++ text_lines u) same in
          let read_all : read_lines event_of (text_lines whole)
              ≡ some (events ++ number_events numbered (suc n) (e ∷ es), skipped + 0) =
            ap (read_lines event_of) all_lines
            ∙ read_lines-append (text_lines t) (text_lines u) (events, skipped)
                (number_events numbered (suc n) (e ∷ es), 0) found
                (read_lines-written (suc n) (e ∷ es) ok) in
          let total : skipped + 0 ≡ skipped = omega arith in
          ap (read event_of) (append_many-some codec e es b n k)
          ∙ (rw (read, r) read_all)
          ∙ ap (λ z. some (events ++ number_events numbered (suc n) (e ∷ es), z)) total
    ]
