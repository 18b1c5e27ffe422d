-- ===== src/Store/EventLog/Torn.antt =====
-- store/eventlog.py: a record that is torn inside a character, and the reads after it.
use supervisor_harness.Prelude.{
  ℕ, suc, ◌≡◌, ◌≢◌, refl, sym, ap, ◌∙◌, inl, inr, false, none, some, List, [], ◌∷◌, ◌++◌,
  append_assoc, Bool-cases, Option-cases, arith,
}
use supervisor_harness.Text.{Text}
use supervisor_harness.Store.Lines.{Bytes}
use supervisor_harness.Store.EventLog.{
  Codec, is_closed, terminate_last_line, last_seq_unlocked, write_all, append_many,
}
use supervisor_harness.Store.EventLog.Written.{closed-IsTerminated}
use supervisor_harness.Store.EventLog.Batch.{append_many-none, append_many-some}
use supervisor_harness.Store.EventLog.Read.{
  Pending, ready, lead, continued, decode_byte, decode_bytes, utf8, read, Parsed,
}

-- The file ends inside a character: what is there is the beginning of UTF-8.
abbrev pub IsTorn : Bytes → Type 0
IsTorn b =
    (p : Pending) × (t : Text) × (n : ℕ) × (decode_bytes ready b ≡ some (p, t)) × (p.need ≡ suc n)

none≢some {κ} : {A : Type κ} {a : A} → none ≢ some a
none≢some h = cc

suc≢zero : (n : ℕ) → suc n ≢ 0
suc≢zero n h = omega arith

-- A newline does not continue a character.
newline_inside : (p : Pending) (n : ℕ) → p.need ≡ suc n → decode_byte p 10 ≡ none
unfolding decode_byte continued
newline_inside p n h = rw h refl

-- A newline outside a character leaves the decoder outside.
newline_outside : (p q : Pending) (t : Text) → decode_byte p 10 ≡ some (q, t) → q.need ≡ 0
unfolding decode_byte continued lead
newline_outside p q t h = ground arith

-- What comes after an open character and a newline is not decoded.
pub decode-newline_inside :
    (p q : Pending) (a : Bytes) (t : Text) (n : ℕ) (x : Bytes)
    → decode_bytes p a ≡ some (q, t)
    → q.need ≡ suc n
    → decode_bytes p (a ++ 10 ∷ x) ≡ none
unfolding decode_bytes
decode-newline_inside p q [] t n x h k =
    let same : p ≡ q = cc h in
    let closed = newline_inside p n (ap Pending.need same ∙ k) in rw (closed, decode_bytes) refl
decode-newline_inside p q (c ∷ a) t n x h k = elim (Option-cases (decode_byte p c)) [
  | inl e ↦ rw (e, decode_bytes) refl
  | inr (m, e) ↦ elim (Option-cases (decode_bytes m.0 a)) [
    | inl f ↦ absurd (none≢some (rw (e, f, decode_bytes) at h))
    | inr (r, f) ↦
        let found : some (r.0, m.1 ++ r.1) ≡ some (q, t) = rw (e, f, decode_bytes) at h in
        let same : r.0 ≡ q = cc found in
        let later = decode-newline_inside m.0 r.0 a r.1 n x f (ap Pending.need same ∙ k) in
        rw (e, later, decode_bytes) refl
  ]
]

decode-newline_outside :
    (p q : Pending) (a : Bytes) (t : Text)
    → decode_bytes p (a ++ 10 ∷ []) ≡ some (q, t)
    → q.need ≡ 0
unfolding decode_bytes
decode-newline_outside p q [] t h = elim (Option-cases (decode_byte p 10)) [
  | inl e ↦ absurd (none≢some (rw (e, decode_bytes) at h))
  | inr (m, e) ↦
      let found : some (m.0, m.1 ++ []) ≡ some (q, t) = rw (e, decode_bytes) at h in
      let same : m.0 ≡ q = cc found in sym (ap Pending.need same) ∙ newline_outside p m.0 m.1 e
]
decode-newline_outside p q (c ∷ a) t h = elim (Option-cases (decode_byte p c)) [
  | inl e ↦ absurd (none≢some (rw (e, decode_bytes) at h))
  | inr (m, e) ↦ elim (Option-cases (decode_bytes m.0 (a ++ 10 ∷ []))) [
    | inl f ↦ absurd (none≢some (rw (e, f, decode_bytes) at h))
    | inr (r, f) ↦
        let found : some (r.0, m.1 ++ r.1) ≡ some (q, t) = rw (e, f, decode_bytes) at h in
        let same : r.0 ≡ q = cc found in
        sym (ap Pending.need same) ∙ decode-newline_outside m.0 r.0 a r.1 f
  ]
]

nothing_pending :
    (p : Pending) (t : Text) (n : ℕ)
    → decode_bytes ready [] ≡ some (p, t)
    → p.need ≡ suc n
    → suc n ≡ 0
unfolding decode_bytes
nothing_pending p t n e k = let same : ready ≡ p = cc e in sym k ∙ sym (ap Pending.need same)

torn-is_closed : (b : Bytes) → IsTorn b → is_closed b ≡ false
torn-is_closed b (p, t, n, e, k) = elim (Bool-cases (is_closed b)) [
  | inl y ↦ elim (closed-IsTerminated b y) [
    | inl none_written ↦
        absurd
          (suc≢zero n (nothing_pending p t n (sym (ap (decode_bytes ready) none_written) ∙ e) k))
    | inr (a, whole) ↦
        let outside =
          decode-newline_outside ready p a t (sym (ap (decode_bytes ready) whole) ∙ e) in
        absurd (suc≢zero n (sym k ∙ outside))
  ]
  | inr c ↦ c
]

torn-terminate_last_line : (b : Bytes) → IsTorn b → terminate_last_line b ≡ b ++ 10 ∷ []
unfolding terminate_last_line
torn-terminate_last_line [] (p, t, n, e, k) = absurd (suc≢zero n (nothing_pending p t n e k))
torn-terminate_last_line (c ∷ b) torn = rw (torn-is_closed (c ∷ b) torn) refl

utf8_torn : (b x : Bytes) → IsTorn b → utf8 (b ++ 10 ∷ x) ≡ none
unfolding utf8
utf8_torn b x (p, t, n, e, k) = rw (decode-newline_inside ready p b t n x e k, utf8) refl

module _ {Event : Type 0} (codec : Codec Event) (event_of : Text → Parsed Event) where
  append_many-utf8 :
      (e : Event) (es : List Event) (b : Bytes)
      → IsTorn b
      → utf8 ((append_many codec (e ∷ es) b).0) ≡ none
  append_many-utf8 e es b torn =
      let ended = torn-terminate_last_line b torn in
      elim (Option-cases (last_seq_unlocked codec b)) [
        | inl h ↦ ap utf8 (append_many-none codec e es b h ∙ ended) ∙ utf8_torn b [] torn
        | inr (n, h) ↦
            let rest = write_all codec (suc n) (e ∷ es) in
            ap utf8 (
              append_many-some codec e es b n h
              ∙ ap (λ l. l ++ rest) ended
              ∙ append_assoc b (10 ∷ []) rest)
            ∙ utf8_torn b rest torn
      ]

  -- Once a record is torn inside a character, no batch that is appended makes the file readable
  -- again, whether the append succeeds or refuses: the read raises, and the records of the batch
  -- are lost to it with those before.
  pub append_many-read :
      (e : Event) (es : List Event) (b : Bytes)
      → IsTorn b
      → read event_of ((append_many codec (e ∷ es) b).0) ≡ none
  unfolding read
  append_many-read e es b torn = rw (append_many-utf8 e es b torn, read) refl
