-- ===== src/Store/EventLog.antt =====
-- store/eventlog.py, writing: the sequence number read from the end, `append`, `append_many`.
pub mod Tail
pub mod Written
pub mod Batch
pub mod Read
pub mod Counted
pub mod Torn
pub mod Utf8
pub mod Reread
pub mod Lettered
mod Examples
use supervisor_harness.Prelude.{
  ℕ, zero, suc, ◌-◌, ◌*◌, ◌≡◌, Bool, true, false, not, Option, none, some, List, [], ◌∷◌, ◌++◌,
  length, is_empty, all, drop, leb, ◌==◌, if◌then◌else◌,
}
use supervisor_harness.Store.Lines.{Bytes, lines_of, is_blank}
use mathlib.Core.List.{tail}

-- What the log uses of the format of a record.
pub record Codec (Event : Type 0) : Type 0 where
  -- `json.dumps(event_to_dict(event))`, once `event.seq` is assigned
  pub encode : ℕ → Event → Bytes
  -- `int(json.loads(line)["seq"])`, `none` where one of the caught errors is raised
  pub seq_of : Bytes → Option ℕ

unfoldable pub is_newline : ℕ → Bool
is_newline c = c == 10

-- `json.dumps` writes one line, and the line reads back with the number it was given.
pub record Lawful {Event : Type 0} (codec : Codec Event) : Type 0 where
  pub one_line : (n : ℕ) (e : Event) → all (λ c. not (is_newline c)) (codec.encode n e) ≡ true
  pub not_blank : (n : ℕ) (e : Event) → is_blank (codec.encode n e) ≡ false
  pub seq_of-encode : (n : ℕ) (e : Event) → codec.seq_of (codec.encode n e) ≡ some n

unfoldable pub smaller : ℕ → ℕ → ℕ
smaller a b = if leb a b then a else b

-- Whether the last byte is a newline.
unfoldable pub is_closed : Bytes → Bool
unfolding is_newline
is_closed [] = false
is_closed (c ∷ []) = is_newline c
is_closed (c ∷ d ∷ b) = is_closed (d ∷ b)

unfoldable pub terminate_last_line : Bytes → Bytes
unfolding is_closed
terminate_last_line b = if is_empty b then b else if is_closed b then b else b ++ 10 ∷ []

-- One round of the loop on the window: whether the window is the whole file, the number found,
-- whether the window has no line, and what a wider window gives.
unfoldable pub settle : Bool → Option ℕ → Bool → Option ℕ → Option ℕ
settle whole (some n) blank wider = some n
settle true none blank wider = if blank then some 0 else none
settle false none blank wider = wider

module _ {Event : Type 0} (codec : Codec Event) where
  -- The first line from the end that carries a number.
  unfoldable pub last_readable : List Bytes → Option ℕ
  last_readable [] = none
  last_readable (l ∷ ls) = elim (last_readable ls) [ some n ↦ some n | none ↦ codec.seq_of l ]

  -- The loop on the window; `none` is `CorruptLog`.
  unfoldable pub look_back : ℕ → ℕ → Bytes → Option ℕ
  unfolding is_newline smaller lines_of last_readable settle
  look_back zero window b = none
  look_back (suc fuel) window b =
      let size = length b in
      let lines = lines_of is_newline (drop (size - window) b) in
      let candidates = if leb size window then lines else tail lines in
      let wider = look_back fuel (smaller size (window * 4)) b in
      settle (leb size window) (last_readable candidates) (is_empty lines) wider

  unfoldable pub last_seq_unlocked : Bytes → Option ℕ
  unfolding look_back smaller
  last_seq_unlocked b =
      if is_empty b then some 0 else look_back (length b) (smaller (length b) 4096) b

  unfoldable pub append : Event → Bytes → Bytes × Option ℕ
  unfolding terminate_last_line last_seq_unlocked
  append e b = elim (last_seq_unlocked b) [
    | none ↦ (terminate_last_line b, none)
    | some n ↦ (terminate_last_line b ++ (codec.encode (suc n) e ++ 10 ∷ []), some (suc n))
  ]

  -- The records of a batch, numbered from `n`.
  unfoldable pub write_all : ℕ → List Event → Bytes
  write_all n [] = []
  write_all n (e ∷ es) = codec.encode n e ++ 10 ∷ write_all (suc n) es

  -- The numbers of a batch.
  unfoldable pub number_all : ℕ → List Event → List ℕ
  number_all n [] = []
  number_all n (e ∷ es) = n ∷ number_all (suc n) es

  unfoldable pub append_many : List Event → Bytes → Bytes × Option (List ℕ)
  unfolding terminate_last_line last_seq_unlocked write_all number_all
  append_many [] b = (b, some [])
  append_many (e ∷ es) b = elim (last_seq_unlocked b) [
    | none ↦ (terminate_last_line b, none)
    | some n ↦
        (terminate_last_line b ++ write_all (suc n) (e ∷ es), some (number_all (suc n) (e ∷ es)))
  ]
