-- ===== src/Glob/Literal.antt =====
-- What a glob says of the texts it matches: they begin with its leading literal characters.
use supervisor_harness.Prelude.{
  ℕ, ◌≡◌, refl, Bool, true, false, ◌||◌, [], ◌∷◌, ◌++◌, arith, ◌==◌, if◌then◌else◌, is_empty,
  Bool-cases, inl, inr, ◌&&◌,
}
use supervisor_harness.Text.{Text, codes, text_eq, starts_with}
use supervisor_harness.Glob.{
  star, char, next_item, width, items_from, accepts, some_suffix, fits, fnmatch,
}

-- The characters of `_META`.
unfoldable pub is_meta : ℕ → Bool
is_meta c = c == b'*' || c == b'?' || c == b'['

-- `_META & set(pattern)` is not empty.
unfoldable pub has_meta : Text → Bool
unfolding is_meta
has_meta [] = false
has_meta (c ∷ t) = is_meta c || has_meta t

-- The leading run of a pattern before its first metacharacter.
unfoldable pub literal_prefix : Text → Text
unfolding is_meta
literal_prefix [] = []
literal_prefix (c ∷ t) = let rest = c ∷ literal_prefix t in if is_meta c then [] else rest

next_item-literal : (c : ℕ) (t : Text) → is_meta c ≡ false → next_item c t ≡ char c
unfolding next_item is_meta
next_item-literal c t h = ground arith

width-literal : (c : ℕ) (t : Text) → is_meta c ≡ false → width c t ≡ 0
unfolding width is_meta
width-literal c t h = ground arith

fits-char_cons :
    (c : ℕ) (p : Text) (x : ℕ) (t : Text)
    → is_meta c ≡ false
    → fits (items_from 0 (c ∷ p)) (x ∷ t) ≡ (c == x && fits (items_from 0 p) t)
unfolding items_from fits accepts
fits-char_cons c p x t h = rw (next_item-literal c p h, width-literal c p h) refl

fits-char_nil : (c : ℕ) (p : Text) → is_meta c ≡ false → fits (items_from 0 (c ∷ p)) [] ≡ false
unfolding items_from fits
fits-char_nil c p h = rw (next_item-literal c p h) refl

fits-literal_prefix :
    (p t : Text) → fits (items_from 0 p) t ≡ true → starts_with (literal_prefix p) t ≡ true
unfolding starts_with literal_prefix
fits-literal_prefix [] t h = refl
fits-literal_prefix (c ∷ p) [] h = elim (Bool-cases (is_meta c)) [
  | inl e ↦ rw e
  | inr e ↦ ground (arith, fits-char_nil c p e)
]
fits-literal_prefix (c ∷ p) (x ∷ t) h = elim (Bool-cases (is_meta c)) [
  | inl e ↦ rw e
  | inr e ↦ ground (arith, e, fits-char_cons c p x t e, fits-literal_prefix p t)
]

pub fnmatch-literal_prefix :
    (t p : Text) → fnmatch t p ≡ true → starts_with (literal_prefix p) t ≡ true
unfolding fnmatch
fnmatch-literal_prefix t p h = fits-literal_prefix p t h

fits-literal : (p t : Text) → has_meta p ≡ false → fits (items_from 0 p) t ≡ text_eq p t
unfolding has_meta text_eq
fits-literal [] [] h = unfold items_from fits in refl
fits-literal [] (x ∷ t) h = unfold items_from fits in refl
fits-literal (c ∷ p) [] h = ground (arith, fits-char_nil c p)
fits-literal (c ∷ p) (x ∷ t) h = ground (arith, fits-char_cons c p x t, fits-literal p t)

-- With no metacharacter a pattern matches itself alone.
pub fnmatch-literal : (t p : Text) → has_meta p ≡ false → fnmatch t p ≡ text_eq p t
unfolding fnmatch
fnmatch-literal t p h = fits-literal p t h

fits-cancel :
    (b p t : Text)
    → has_meta b ≡ false
    → fits (items_from 0 (b ++ p)) (b ++ t) ≡ fits (items_from 0 p) t
unfolding has_meta
fits-cancel [] p t h = refl
fits-cancel (c ∷ b) p t h = ground (arith, fits-char_cons c (b ++ p) c (b ++ t), fits-cancel b p t)

-- A literal beginning is matched by itself.
pub fnmatch-cancel : (b p t : Text) → has_meta b ≡ false → fnmatch (b ++ t) (b ++ p) ≡ fnmatch t p
unfolding fnmatch
fnmatch-cancel b p t h = fits-cancel b p t h

some_suffix-nil : (f : Text → Bool) (t : Text) → f [] ≡ true → some_suffix f t ≡ true
unfolding some_suffix
some_suffix-nil f [] h = h
some_suffix-nil f (c ∷ t) h = ground (arith, some_suffix-nil f t h)

-- `*` crosses `/`, so it matches every text, with more stars after it too.
pub fnmatch-star : (t : Text) → fnmatch t (b'*' ∷ []) ≡ true
unfolding fnmatch items_from next_item width fits
fnmatch-star t = some_suffix-nil (fits []) t refl

pub fnmatch-star_star : (t : Text) → fnmatch t (b'*' ∷ b'*' ∷ []) ≡ true
unfolding fnmatch items_from next_item width fits
fnmatch-star_star t = some_suffix-nil (fits (star ∷ [])) t (unfold some_suffix in refl)

pub literal_prefix-of_literal : (p : Text) → has_meta p ≡ false → literal_prefix p ≡ p
unfolding has_meta literal_prefix
literal_prefix-of_literal [] h = refl
literal_prefix-of_literal (c ∷ p) h = ground (arith, literal_prefix-of_literal p)

-- The prefix of a pattern is literal, and passes a literal beginning.
pub literal_prefix-append :
    (b p : Text) → has_meta b ≡ false → literal_prefix (b ++ p) ≡ b ++ literal_prefix p
unfolding has_meta literal_prefix
literal_prefix-append [] p h = refl
literal_prefix-append (c ∷ b) p h = ground (arith, literal_prefix-append b p)

pub has_meta-literal_prefix : (p : Text) → has_meta (literal_prefix p) ≡ false
unfolding has_meta literal_prefix
has_meta-literal_prefix [] = refl
has_meta-literal_prefix (c ∷ p) = ground (arith, has_meta-literal_prefix p)

-- The prefix of a pattern ends at a metacharacter that follows `b` and one more character.
pub literal_prefix-snoc :
    (b : Text) (c : ℕ) (p : Text)
    → literal_prefix p ≡ []
    → starts_with (literal_prefix (b ++ c ∷ p)) (b ++ c ∷ []) ≡ true
unfolding literal_prefix starts_with
literal_prefix-snoc [] c p h = ground arith
literal_prefix-snoc (x ∷ b) c p h = ground (arith, literal_prefix-snoc b c p h)

-- `?` matches one character.
pub fnmatch-question : (x : ℕ) → fnmatch (x ∷ []) (b'?' ∷ []) ≡ true
unfolding fnmatch items_from next_item width fits accepts
fnmatch-question x = refl

pub fnmatch-question_longer :
    (x : ℕ) (t : Text) → is_empty t ≡ false → fnmatch (x ∷ t) (b'?' ∷ []) ≡ false
unfolding fnmatch items_from next_item width fits accepts
fnmatch-question_longer x [] h = cc
fnmatch-question_longer x (y ∷ t) h = refl

pub has_meta-append_literal : (b p : Text) → has_meta b ≡ false → has_meta (b ++ p) ≡ has_meta p
unfolding has_meta
has_meta-append_literal [] p h = refl
has_meta-append_literal (x ∷ b) p h = ground (arith, has_meta-append_literal b p)

pub fnmatch-star_slash : (c : ℕ) (t : Text) → fnmatch (c ∷ b'/' ∷ t) (codes "*/**") ≡ true
unfolding fnmatch items_from next_item width fits accepts some_suffix
fnmatch-star_slash c t = ground (arith, fnmatch-star_star t)
