-- ===== src/Store/EventLog/Written.antt =====
-- store/eventlog.py, `append` and `append_many`: what the file holds afterwards.
use supervisor_harness.Prelude.{
  ℕ, suc, ◌≡◌, refl, sym, ap, ◌∙◌, ◌⊎◌, inl, inr, true, Option, none, some, List, [], ◌∷◌, ◌++◌,
  append-nil, append_assoc, Bool-cases, Option-cases, arith,
}
use supervisor_harness.Store.Lines.{
  Bytes, lines_of, is_blank, split, lines_of-append, lines_of-line,
}
use supervisor_harness.Store.EventLog.{
  Codec, Lawful, is_newline, is_closed, terminate_last_line, last_readable, last_seq_unlocked,
  append, write_all, append_many,
}
use supervisor_harness.Store.EventLog.Tail.{scan, scan-some, last_seq_unlocked-scan}

abbrev pub lines : Bytes → List Bytes
lines b = lines_of is_newline b

-- Empty, or ended by a newline.
abbrev pub IsTerminated : Bytes → Type 0
IsTerminated b = (b ≡ []) ⊎ ((a : Bytes) × (b ≡ a ++ 10 ∷ []))

pub closed-IsTerminated : (b : Bytes) → is_closed b ≡ true → IsTerminated b
unfolding is_closed is_newline
closed-IsTerminated [] h = inl refl
closed-IsTerminated (c ∷ []) h = inr ([], ground arith)
closed-IsTerminated (c ∷ d ∷ b) h = elim (closed-IsTerminated (d ∷ b) h) [
  | inl e ↦ ground arith
  | inr (a, e) ↦ inr (c ∷ a, ap (λ l. c ∷ l) e)
]

pub terminate_last_line-IsTerminated : (b : Bytes) → IsTerminated (terminate_last_line b)
unfolding terminate_last_line
terminate_last_line-IsTerminated [] = inl refl
terminate_last_line-IsTerminated (c ∷ b) = elim (Bool-cases (is_closed (c ∷ b))) [
  | inl y ↦ rw y (closed-IsTerminated (c ∷ b) y)
  | inr n ↦ rw n (inr (c ∷ b, refl))
]

snoc-is_closed : (a : Bytes) → is_closed (a ++ 10 ∷ []) ≡ true
unfolding is_closed is_newline
snoc-is_closed [] = refl
snoc-is_closed (c ∷ []) = refl
snoc-is_closed (c ∷ d ∷ a) = snoc-is_closed (d ∷ a)

pub terminate_last_line_same : (b : Bytes) → IsTerminated b → terminate_last_line b ≡ b
unfolding terminate_last_line
terminate_last_line_same [] h = refl
terminate_last_line_same (c ∷ b) (inl e) = ground arith
terminate_last_line_same (c ∷ b) (inr (a, e)) =
    let closed : is_closed (c ∷ b) ≡ true = ap is_closed e ∙ snoc-is_closed a in rw closed refl

lines-nil : lines [] ≡ []
unfolding lines_of split is_blank
lines-nil = refl

newline : is_newline 10 ≡ true
unfolding is_newline
newline = refl

lines-newline : (a x : Bytes) → lines (a ++ 10 ∷ x) ≡ lines a ++ lines x
lines-newline a x = lines_of-append is_newline 10 a x newline

lines-snoc : (a : Bytes) → lines (a ++ 10 ∷ []) ≡ lines a
lines-snoc a = lines-newline a [] ∙ ap (λ l. lines a ++ l) lines-nil ∙ append-nil (lines a)

lines-IsTerminated : (t x : Bytes) → IsTerminated t → lines (t ++ x) ≡ lines t ++ lines x
lines-IsTerminated t x (inl e) = rw (e, lines-nil) refl
lines-IsTerminated t x (inr (a, e)) =
    rw (e, append_assoc a (10 ∷ []) x, lines-newline a x, lines-snoc a) refl

-- Ending the last line neither adds nor loses a line.
pub lines-terminate_last_line : (b : Bytes) → lines (terminate_last_line b) ≡ lines b
unfolding terminate_last_line
lines-terminate_last_line [] = refl
lines-terminate_last_line (c ∷ b) = elim (Bool-cases (is_closed (c ∷ b))) [
  | inl y ↦ rw y refl
  | inr n ↦ rw n (lines-snoc (c ∷ b))
]

-- What follows the ended last line is lines of its own.
lines-terminated : (b x : Bytes) → lines (terminate_last_line b ++ x) ≡ lines b ++ lines x
lines-terminated b x =
    lines-IsTerminated (terminate_last_line b) x (terminate_last_line-IsTerminated b)
    ∙ ap (λ l. l ++ lines x) (lines-terminate_last_line b)

module _ {Event : Type 0} (codec : Codec Event) where
  -- The records of a batch as lines, numbered from `n`.
  unfoldable pub records : ℕ → List Event → List Bytes
  records n [] = []
  records n (e ∷ es) = codec.encode n e ∷ records (suc n) es

  -- The lines that a batch adds after the last number, and no line where the log is corrupt.
  unfoldable pub added : Option ℕ → List Event → List Bytes
  unfolding records
  added none es = []
  added (some n) es = records (suc n) es

  module _ (lawful : Lawful codec) where
    lines-record :
        (n : ℕ) (e : Event) (x : Bytes)
        → lines (codec.encode n e ++ 10 ∷ x) ≡ codec.encode n e ∷ lines x
    lines-record n e x =
        lines-newline (codec.encode n e) x
        ∙ ap (λ l. l ++ lines x)
            (lines_of-line is_newline (codec.encode n e) (lawful.one_line n e)
              (lawful.not_blank n e))

    lines-write_all : (n : ℕ) (es : List Event) → lines (write_all codec n es) ≡ records n es
    unfolding write_all records
    lines-write_all n [] = lines-nil
    lines-write_all n (e ∷ es) =
        lines-record n e (write_all codec (suc n) es)
        ∙ ap (λ l. codec.encode n e ∷ l) (lines-write_all (suc n) es)

    -- A batch leaves every line of the file as it was and adds its records after them, numbered
    -- from the one after the last number; on a corrupt log it adds no line. The format of a record
    -- is taken to keep the laws of Lawful.
    pub append_many-lines :
        (es : List Event) (b : Bytes)
        → lines ((append_many codec es b).0) ≡ lines b ++ added (last_seq_unlocked codec b) es
    unfolding append_many added
    append_many-lines [] b = elim (Option-cases (last_seq_unlocked codec b)) [
      | inl e ↦ rw e (sym (append-nil (lines b)))
      | inr (n, e) ↦ rw e (sym (append-nil (lines b)))
    ]
    append_many-lines (e ∷ es) b = elim (Option-cases (last_seq_unlocked codec b)) [
      | inl h ↦ rw (h, append_many) (lines-terminate_last_line b ∙ sym (append-nil (lines b)))
      | inr (n, h) ↦
          rw (h, append_many)
            (lines-terminated b (write_all codec (suc n) (e ∷ es))
              ∙ ap (λ l. lines b ++ l) (lines-write_all (suc n) (e ∷ es)))
    ]

    -- An event of its own is a batch of one.
    pub append_one :
        (e : Event) (b : Bytes) → (append codec e b).0 ≡ (append_many codec (e ∷ []) b).0
    unfolding write_all append append_many
    append_one e b = elim (Option-cases (last_seq_unlocked codec b)) [
      | inl h ↦ rw (h, append, append_many) refl
      | inr (n, h) ↦ rw (h, append, append_many) refl
    ]

    lines-append :
        (e : Event) (b : Bytes)
        → lines ((append codec e b).0) ≡ lines b ++ added (last_seq_unlocked codec b) (e ∷ [])
    lines-append e b = ap lines (append_one e b) ∙ append_many-lines (e ∷ []) b

    last_readable-encode :
        (n : ℕ) (e : Event) → last_readable codec (codec.encode n e ∷ []) ≡ some n
    unfolding last_readable
    last_readable-encode n e = lawful.seq_of-encode n e

    -- After an append the last number of the file is the one the event was given, and on a corrupt
    -- log, which gives none, the file stays corrupt. The format of a record is taken to keep the
    -- laws of Lawful.
    pub append-last_seq :
        (e : Event) (b : Bytes)
        → last_seq_unlocked codec ((append codec e b).0) ≡ (append codec e b).1
    unfolding append
    append-last_seq e b = elim (Option-cases (last_seq_unlocked codec b)) [
      | inl h ↦
          rw (h, append)
            (last_seq_unlocked-scan codec (terminate_last_line b)
              ∙ ap (scan codec) (lines-terminate_last_line b)
              ∙ sym (last_seq_unlocked-scan codec b)
              ∙ h)
      | inr (n, h) ↦
          rw (h, append)
            (last_seq_unlocked-scan codec
                (terminate_last_line b ++ (codec.encode (suc n) e ++ 10 ∷ []))
              ∙ ap (scan codec) (lines-terminated b (codec.encode (suc n) e ++ 10 ∷ []))
              ∙ ap (λ l. scan codec (lines b ++ l))
                  (lines-record (suc n) e [] ∙ ap (λ l. codec.encode (suc n) e ∷ l) lines-nil)
              ∙ scan-some codec (lines b) (codec.encode (suc n) e ∷ []) (suc n)
                  (last_readable-encode (suc n) e))
    ]
