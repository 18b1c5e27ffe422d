-- ===== src/Store/EventLog/Batch.antt =====
-- store/eventlog.py, `append_many` against `append`, one event after the other.
use supervisor_harness.Prelude.{
  ℕ, suc, ◌≡◌, refl, sym, ap, ◌∙◌, inl, inr, none, some, List, [], ◌∷◌, ◌++◌, append_assoc,
  Option-cases,
}
use supervisor_harness.Store.Lines.{Bytes}
use supervisor_harness.Store.EventLog.{
  Codec, Lawful, terminate_last_line, last_seq_unlocked, append, write_all, append_many,
}
use supervisor_harness.Store.EventLog.Written.{
  IsTerminated, terminate_last_line-IsTerminated, terminate_last_line_same, append-last_seq,
}

pub terminate_last_line_twice :
    (b : Bytes) → terminate_last_line (terminate_last_line b) ≡ terminate_last_line b
terminate_last_line_twice b =
    terminate_last_line_same (terminate_last_line b) (terminate_last_line-IsTerminated b)

written-IsTerminated : (t x : Bytes) → IsTerminated (t ++ (x ++ 10 ∷ []))
written-IsTerminated t x = inr (t ++ x, sym (append_assoc t x (10 ∷ [])))

module _ {Event : Type 0} (codec : Codec Event) where
  -- `append` of each event in turn: the file afterwards.
  unfoldable pub append_all : List Event → Bytes → Bytes
  unfolding append
  append_all [] b = b
  append_all (e ∷ es) b = append_all es ((append codec e b).0)

  append-none :
      (e : Event) (b : Bytes)
      → last_seq_unlocked codec b ≡ none
      → append codec e b ≡ (terminate_last_line b, none)
  unfolding append
  append-none e b h = rw (h, append) refl

  pub append-some :
      (e : Event) (b : Bytes) (n : ℕ)
      → last_seq_unlocked codec b ≡ some n
      → append codec e b
        ≡ (terminate_last_line b ++ (codec.encode (suc n) e ++ 10 ∷ []), some (suc n))
  unfolding append
  append-some e b n h = rw (h, append) refl

  pub append_many-none :
      (e : Event) (es : List Event) (b : Bytes)
      → last_seq_unlocked codec b ≡ none
      → (append_many codec (e ∷ es) b).0 ≡ terminate_last_line b
  unfolding append_many
  append_many-none e es b h = rw (h, append_many) refl

  pub append_many-some :
      (e : Event) (es : List Event) (b : Bytes) (n : ℕ)
      → last_seq_unlocked codec b ≡ some n
      → (append_many codec (e ∷ es) b).0 ≡ terminate_last_line b ++ write_all codec (suc n) (e ∷ es)
  unfolding append_many
  append_many-some e es b n h = rw (h, append_many) refl

  module _ (lawful : Lawful codec) where
    -- The first event of a batch is an append of its own.
    append_many-cons :
        (e : Event) (es : List Event) (b : Bytes)
        → (append_many codec (e ∷ es) b).0 ≡ (append_many codec es ((append codec e b).0)).0
    unfolding append append_many write_all
    append_many-cons e [] b = elim (Option-cases (last_seq_unlocked codec b)) [
      | inl h ↦ rw (h, append, append_many) refl
      | inr (n, h) ↦ rw (h, append, append_many) refl
    ]
    append_many-cons e (d ∷ es) b = elim (Option-cases (last_seq_unlocked codec b)) [
      | inl h ↦
          let file = append-none e b h in
          let after = append-last_seq codec lawful e b ∙ ap (λ p. p.1) file in
          append_many-none e (d ∷ es) b h
          ∙ sym (
              append_many-none d es ((append codec e b).0) after
              ∙ ap (λ p. terminate_last_line p.0) file
              ∙ terminate_last_line_twice b)
      | inr (n, h) ↦
          let line = codec.encode (suc n) e in
          let rest = write_all codec (suc (suc n)) (d ∷ es) in
          let t = terminate_last_line b in
          let file = append-some e b n h in
          let after = append-last_seq codec lawful e b ∙ ap (λ p. p.1) file in
          append_many-some e (d ∷ es) b n h
          ∙ sym (
              append_many-some d es ((append codec e b).0) (suc n) after
              ∙ ap (λ p. terminate_last_line p.0 ++ rest) file
              ∙ ap (λ l. l ++ rest)
                  (terminate_last_line_same (t ++ (line ++ 10 ∷ [])) (written-IsTerminated t line))
              ∙ append_assoc t (line ++ 10 ∷ []) rest
              ∙ ap (λ l. t ++ l) (append_assoc line (10 ∷ []) rest))
    ]

    -- A batch leaves the file that appending its events one after the other leaves, on a corrupt log
    -- too. The format of a record is taken to keep the laws of Lawful.
    pub append_many-append_all :
        (es : List Event) (b : Bytes) → (append_many codec es b).0 ≡ append_all es b
    unfolding append_all append_many
    append_many-append_all [] b = refl
    append_many-append_all (e ∷ es) b =
        append_many-cons e es b ∙ append_many-append_all es ((append codec e b).0)
