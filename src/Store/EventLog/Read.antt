-- ===== src/Store/EventLog/Read.antt =====
-- store/eventlog.py, `read`: the file opened as UTF-8, its lines, and the count of those that are
-- skipped. Python's strict decoder is a machine that reads a byte at a time.
use supervisor_harness.Prelude.{
  ℕ, zero, suc, ◌+◌, ◌-◌, ◌*◌, not, ◌&&◌, ◌||◌, Option, none, some, List, [], ◌∷◌, ◌++◌, map,
  filter, is_empty, leb, ◌==◌, if◌then◌else◌,
}
use supervisor_harness.Text.{Text, strip}
use supervisor_harness.Store.Lines.{Bytes, split}

-- How many bytes of a character are to come, the range of the next one, and the bits so far.
pub record Pending : Type 0 where
  pub need : ℕ
  pub lo : ℕ
  pub hi : ℕ
  pub bits : ℕ

abbrev pub ready : Pending
ready = record { need = 0; lo = 128; hi = 191; bits = 0 }

abbrev pub awaiting : ℕ → ℕ → ℕ → ℕ → Option (Pending × Text)
awaiting need lo hi bits = some (record { need = need; lo = lo; hi = hi; bits = bits }, [])

-- The first byte of a character: neither an overlong form nor a surrogate, and no more than 10FFFF.
unfoldable pub lead : ℕ → Option (Pending × Text)
lead c =
    if leb c 127
    then some (ready, c ∷ [])
    else if leb 194 c && leb c 223
    then awaiting 1 128 191 (c - 192)
    else if c == 224
    then awaiting 2 160 191 0
    else if c == 237
    then awaiting 2 128 159 13
    else if leb 225 c && leb c 239
    then awaiting 2 128 191 (c - 224)
    else if c == 240
    then awaiting 3 144 191 0
    else if leb 241 c && leb c 243
    then awaiting 3 128 191 (c - 240)
    else if c == 244
    then awaiting 3 128 143 4
    else none

-- A byte that continues a character: `need` more follow it.
unfoldable pub continued : ℕ → Pending → ℕ → Option (Pending × Text)
continued need p c =
    let bits = p.bits * 64 + (c - 128) in
    if leb 128 c && leb p.lo c && leb c p.hi
    then (if need == 0
        then some (ready, bits ∷ [])
        else some (record { need = need; lo = 128; hi = 191; bits = bits }, []))
    else none

unfoldable pub decode_byte : Pending → ℕ → Option (Pending × Text)
unfolding lead continued
decode_byte p c = elim p.need [ zero ↦ lead c | suc need ↦ continued need p c ]

unfoldable pub decode_bytes : Pending → Bytes → Option (Pending × Text)
unfolding decode_byte
decode_bytes p [] = some (p, [])
decode_bytes p (c ∷ b) = elim (decode_byte p c) [
  | none ↦ none
  | some q ↦ elim (decode_bytes q.0 b) [ none ↦ none | some r ↦ some (r.0, q.1 ++ r.1) ]
]

-- The text of a file; `none` is `UnicodeDecodeError`.
unfoldable pub utf8 : Bytes → Option Text
unfolding decode_bytes
utf8 b = elim (decode_bytes ready b) [
  | none ↦ none
  | some r ↦ if r.0.need == 0 then some r.1 else none
]

-- The lines of a text file under universal newlines, stripped, without the blank ones.
unfoldable pub text_lines : Text → List Text
unfolding strip split
text_lines t = filter (λ l. not (is_empty l)) (map strip (split (λ c. c == 10 || c == 13) t))

-- What `event_from_dict(json.loads(line))` comes to: an event, an exception that `read` counts, or one
-- that it does not catch, like the `AttributeError` on JSON that is no object.
pub data Parsed (Event : Type 0) : Type 0 where
  parsed : Event → Parsed Event
  skips escapes : Parsed Event

module _ {Event : Type 0} (event_of : Text → Parsed Event) where
  -- The events of the lines, and how many lines are skipped; `none` where an exception escapes.
  unfoldable pub read_lines : List Text → Option (List Event × ℕ)
  read_lines [] = some ([], 0)
  read_lines (l ∷ ls) =
      let rest = read_lines ls in
      elim (event_of l) [
        | parsed e ↦ elim rest [ none ↦ none | some r ↦ some (e ∷ r.0, r.1) ]
        | skips ↦ elim rest [ none ↦ none | some r ↦ some (r.0, suc r.1) ]
        | escapes ↦ none
      ]

  -- `none` where the read raises.
  unfoldable pub read : Bytes → Option (List Event × ℕ)
  unfolding utf8 text_lines read_lines
  read b = elim (utf8 b) [ none ↦ none | some t ↦ read_lines (text_lines t) ]
