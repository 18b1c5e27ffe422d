-- ===== src/Store/EventLog/Utf8.antt =====
-- store/eventlog.py, `read`: the decoder and the lines on bytes put one after the other.

use supervisor_harness.Prelude.{
  ℕ, zero, suc, ◌≡◌, refl, sym, ap, ◌∙◌, ◌⊎◌, inl, inr, true, false, not, ◌||◌, Option, none, some,
  [], ◌∷◌, ◌++◌, map, map-append, filter, is_empty, append_assoc, arith, Bool-cases, Option-cases,
  ◌==◌, subst, if◌then◌else◌,
}
use supervisor_harness.Text.{Text, strip}
use supervisor_harness.Store.Lines.{Bytes, split, split-append, filter-append}
use supervisor_harness.Store.EventLog.Read.{
  Pending, ready, lead, decode_byte, decode_bytes, utf8, text_lines,
}
use supervisor_harness.Store.EventLog.Torn.{decode-newline_inside}

pub none≢some {κ} : {A : Type κ} {a : A} → ◌≡◌ {A = Option A} none (some a) → ⊥
none≢some h = cc h

pub some_inj {κ} : {A : Type κ} {a b : A} → some a ≡ some b → a ≡ b
some_inj h = cc h

-- Bytes that decode, one after the other.
decode_bytes-append :
    (p q r : Pending) (a b : Bytes) (s u : Text)
    → decode_bytes p a ≡ some (q, s)
    → decode_bytes q b ≡ some (r, u)
    → decode_bytes p (a ++ b) ≡ some (r, s ++ u)
unfolding decode_bytes
decode_bytes-append p q r [] b s u h k =
    let pair : ◌≡◌ {A = Pending × Text} (p, []) (q, s) = cc h in
    let same : p ≡ q = ap (λ z. z.0) pair in
    let none_read : [] ≡ s = ap (λ z. z.1) pair in
    subst (λ z. decode_bytes p b ≡ some (r, z ++ u)) none_read
      (subst (λ z. decode_bytes z b ≡ some (r, u)) (sym same) k)
decode_bytes-append p q r (c ∷ a) b s u h k = elim (Option-cases (decode_byte p c)) [
  | inl e ↦ absurd (none≢some (rw (e, decode_bytes) at h))
  | inr (m, e) ↦ elim (Option-cases (decode_bytes m.0 a)) [
    | inl f ↦ absurd (none≢some (rw (e, f, decode_bytes) at h))
    | inr (n, f) ↦
        let found : some (n.0, m.1 ++ n.1) ≡ some (q, s) = rw (e, f, decode_bytes) at h in
        let pair : ◌≡◌ {A = Pending × Text} (n.0, m.1 ++ n.1) (q, s) = cc found in
        let rest =
          decode_bytes-append m.0 n.0 r a b n.1 u f
            (subst (λ z. decode_bytes z b ≡ some (r, u)) (sym (ap (λ z. z.0) pair)) k) in
        let whole : m.1 ++ (n.1 ++ u) ≡ s ++ u =
          sym (append_assoc m.1 n.1 u) ∙ ap (λ z. z.1 ++ u) pair in
        rw (e, rest, decode_bytes) (ap (λ z. some (r, z)) whole)
  ]
]

-- Between two characters it does not matter what the decoder expects of a byte that continues one.
-- What is decoded after a first byte.
abbrev after : ℕ → Bytes → Option (Pending × Text) → Option (Pending × Text)
after c b none = none
after c b (some q) = elim (decode_bytes q.0 b) [ none ↦ none | some r ↦ some (r.0, q.1 ++ r.1) ]

first_byte : (q : Pending) (c : ℕ) → q.need ≡ 0 → decode_byte q c ≡ decode_byte ready c
unfolding decode_byte
first_byte q c h = rw h refl

decode_bytes-ready :
    (q : Pending) (b : Bytes) (r : Pending) (u : Text)
    → q.need ≡ 0
    → decode_bytes ready b ≡ some (r, u)
    → r.need ≡ 0
    → (r' : Pending) × (decode_bytes q b ≡ some (r', u)) × (r'.need ≡ 0)
unfolding decode_bytes decode_byte
decode_bytes-ready q [] r u h k e =
    let pair : ◌≡◌ {A = Pending × Text} (ready, []) (r, u) = cc k in
    (q, ap (λ z. some (q, z)) (ap (λ z. z.1) pair), h)
decode_bytes-ready q (c ∷ b) r u h k e = (r, ap (after c b) (first_byte q c h) ∙ k, e)

utf8-some :
    (b : Bytes) (t : Text)
    → utf8 b ≡ some t
    → (q : Pending) × (decode_bytes ready b ≡ some (q, t)) × (q.need ≡ 0)
unfolding utf8
utf8-some b t h = elim (Option-cases (decode_bytes ready b)) [
  | inl e ↦ absurd (none≢some (rw (e, utf8) at h))
  | inr (r, e) ↦ whole r e (Bool-cases (r.0.need == 0))
]
  where
    whole :
        (r : Pending × Text)
        → decode_bytes ready b ≡ some r
        → ((r.0.need == 0) ≡ true) ⊎ ((r.0.need == 0) ≡ false)
        → (q : Pending) × (decode_bytes ready b ≡ some (q, t)) × (q.need ≡ 0)
    whole r e (inl z) =
        let same : some r.1 ≡ some t = rw (e, z, utf8) at h in
        (r.0, subst (λ u. decode_bytes ready b ≡ some (r.0, u)) (cc same) e, ground (arith, z))
    whole r e (inr z) = absurd (none≢some (rw (e, z, utf8) at h))

some-utf8 :
    (b : Bytes) (q : Pending) (t : Text)
    → decode_bytes ready b ≡ some (q, t)
    → q.need ≡ 0
    → utf8 b ≡ some t
unfolding utf8
some-utf8 b q t e h = rw (e, h, utf8) refl

pub utf8-append :
    (a b : Bytes) (s u : Text) → utf8 a ≡ some s → utf8 b ≡ some u → utf8 (a ++ b) ≡ some (s ++ u)
utf8-append a b s u h k =
    let (q, e, z) = utf8-some a s h in
    let (r, f, y) = utf8-some b u k in
    let (r', g, x) = decode_bytes-ready q b r u z f y in
    some-utf8 (a ++ b) r' (s ++ u) (decode_bytes-append ready q r' a b s u e g) x

ℕ-cases : (n : ℕ) → (n ≡ 0) ⊎ ((m : ℕ) × (n ≡ suc m))
ℕ-cases zero = inl refl
ℕ-cases (suc m) = inr (m, refl)

-- Bytes that do not decode make no text with others after them.
decode_bytes_stops :
    (p : Pending) (a x : Bytes) → decode_bytes p a ≡ none → decode_bytes p (a ++ x) ≡ none
unfolding decode_bytes
decode_bytes_stops p [] x h = absurd (none≢some (sym h))
decode_bytes_stops p (c ∷ a) x h = elim (Option-cases (decode_byte p c)) [
  | inl e ↦ rw (e, decode_bytes) refl
  | inr (m, e) ↦ elim (Option-cases (decode_bytes m.0 a)) [
    | inl f ↦ rw (e, decode_bytes_stops m.0 a x f, decode_bytes) refl
    | inr (n, f) ↦ absurd (none≢some (sym (rw (e, f, decode_bytes) at h)))
  ]
]

-- What `utf8` makes of the decoder's end.
abbrev closing : Option (Pending × Text) → Option Text
closing none = none
closing (some r) = if r.0.need == 0 then some r.1 else none

pub newline_utf8 : utf8 (10 ∷ []) ≡ some (10 ∷ [])
unfolding utf8 decode_bytes decode_byte lead
newline_utf8 = refl

-- A file that ends in a newline decodes to a text that does.
pub utf8-newline :
    (a : Bytes) (t : Text)
    → utf8 (a ++ 10 ∷ []) ≡ some t
    → (s : Text) × (utf8 a ≡ some s) × (t ≡ s ++ 10 ∷ [])
unfolding utf8
utf8-newline a t h = elim (Option-cases (decode_bytes ready a)) [
  | inl e ↦ absurd (none≢some (sym (ap closing (decode_bytes_stops ready a (10 ∷ []) e)) ∙ h))
  | inr (r, e) ↦ elim (ℕ-cases r.0.need) [
    | inl z ↦
        let read = some-utf8 a r.0 r.1 e z in
        (r.1, read, cc (utf8-append a (10 ∷ []) r.1 (10 ∷ []) read newline_utf8, h))
    | inr (n, z) ↦
        absurd (none≢some (sym (ap closing (decode-newline_inside ready r.0 a r.1 n [] e z)) ∙ h))
  ]
]

pub text_lines-append : (s x : Text) → text_lines (s ++ 10 ∷ x) ≡ text_lines s ++ text_lines x
unfolding text_lines
text_lines-append s x =
    ap (λ l. filter (λ y. not (is_empty y)) (map strip l))
      (split-append (λ c. c == 10 || c == 13) 10 s x refl)
    ∙ ap (filter (λ y. not (is_empty y)))
        (map-append strip (split (λ c. c == 10 || c == 13) s) (split (λ c. c == 10 || c == 13) x))
    ∙ filter-append (λ y. not (is_empty y)) (map strip (split (λ c. c == 10 || c == 13) s))
        (map strip (split (λ c. c == 10 || c == 13) x))

pub text_lines-nil : text_lines [] ≡ []
unfolding text_lines split strip
text_lines-nil = refl
