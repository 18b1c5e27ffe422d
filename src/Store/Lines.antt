-- ===== src/Store/Lines.antt =====
-- The bytes of a log file as lines: Python's `split`, the blank lines dropped, the last byte.
use supervisor_harness.Prelude.{
  ℕ, zero, suc, ◌≡◌, refl, ap, ◌∙◌, append_assoc, inl, inr, Bool, true, false, not, ◌||◌, ◌&&◌,
  List, [], ◌∷◌, ◌++◌, arith, filter, filter_yes, drop, all, leb, ◌==◌, Bool-cases, if◌then◌else◌,
}
use mathlib.Core.List.{tail}

abbrev pub Bytes : Type 0
Bytes = List ℕ

-- `bytes.strip()` leaves nothing.
unfoldable pub is_blank : Bytes → Bool
is_blank b = all (λ c. c == 32 || leb 9 c && leb c 13) b

unfoldable pub cons_head : ℕ → List Bytes → List Bytes
cons_head c [] = (c ∷ []) ∷ []
cons_head c (l ∷ ls) = (c ∷ l) ∷ ls

module _ (ends : ℕ → Bool) where
  -- The pieces between the bytes that end a line.
  unfoldable pub split : Bytes → List Bytes
  unfolding cons_head
  split [] = [] ∷ []
  split (c ∷ b) = let rest = split b in if ends c then [] ∷ rest else cons_head c rest

  -- The lines that are not blank.
  unfoldable pub lines_of : Bytes → List Bytes
  unfolding is_blank
  lines_of b = filter (λ l. not (is_blank l)) (split b)

-- `s` ends the list.
abbrev pub IsSuffix {ℓ} : {A : Type ℓ} → List A → List A → Type ℓ
IsSuffix {A} s xs = (p : List A) × (xs ≡ p ++ s)

pub filter-append {ℓ} :
    {A : Type ℓ} (f : A → Bool) (xs ys : List A) → filter f (xs ++ ys) ≡ filter f xs ++ filter f ys
filter-append f [] ys = refl
filter-append f (x ∷ xs) ys = ground (arith, filter-append f xs ys)

pub IsSuffix-filter {ℓ} :
    {A : Type ℓ} (f : A → Bool) (s xs : List A)
    → IsSuffix s xs
    → IsSuffix (filter f s) (filter f xs)
IsSuffix-filter f s xs (p, e) = (filter f p, ap (filter f) e ∙ filter-append f p s)

pub IsSuffix-cons {ℓ} : {A : Type ℓ} (x : A) (s xs : List A) → IsSuffix s xs → IsSuffix s (x ∷ xs)
IsSuffix-cons x s xs (p, e) = (x ∷ p, ap (λ l. x ∷ l) e)

tail-cons_head : (c : ℕ) (ls : List Bytes) → tail (cons_head c ls) ≡ tail ls
unfolding cons_head
tail-cons_head c [] = refl
tail-cons_head c (l ∷ ls) = refl

cons_head-append :
    (c : ℕ) (l : Bytes) (ls ms : List Bytes)
    → cons_head c ((l ∷ ls) ++ ms) ≡ cons_head c (l ∷ ls) ++ ms
unfolding cons_head
cons_head-append c l ls ms = refl

pub split_some :
    (ends : ℕ → Bool) (b : Bytes) → (l : Bytes) × (ls : List Bytes) × (split ends b ≡ l ∷ ls)
unfolding split cons_head
split_some ends [] = ([], [], refl)
split_some ends (c ∷ b) =
    let (l, ls, e) = split_some ends b in
    elim (Bool-cases (ends c)) [
      | inl y ↦ ([], split ends b, rw y refl)
      | inr n ↦ (c ∷ l, ls, rw (n, e) refl)
    ]

-- A byte in front adds pieces in front, and changes the first one at most.
tail-split-cons :
    (ends : ℕ → Bool) (c : ℕ) (b : Bytes)
    → IsSuffix (tail (split ends b)) (tail (split ends (c ∷ b)))
unfolding split
tail-split-cons ends c b =
    let (l, ls, e) = split_some ends b in
    elim (Bool-cases (ends c)) [
      | inl y ↦ rw (y, e) (l ∷ [], refl)
      | inr n ↦ rw (n, tail-cons_head c (split ends b)) ([], refl)
    ]

pub IsSuffix-trans {ℓ} : {A : Type ℓ} (a b c : List A) → IsSuffix a b → IsSuffix b c → IsSuffix a c
IsSuffix-trans a b c (p, e) (q, f) = (q ++ p, rw (f, e, append_assoc q p a) refl)

-- Cutting bytes off the front keeps every piece but the first.
pub split-drop :
    (ends : ℕ → Bool) (k : ℕ) (b : Bytes)
    → IsSuffix (tail (split ends (drop k b))) (tail (split ends b))
split-drop ends zero b = ([], refl)
split-drop ends (suc k) [] = ([], refl)
split-drop ends (suc k) (c ∷ b) =
    IsSuffix-trans (tail (split ends (drop k b))) (tail (split ends b)) (tail (split ends (c ∷ b)))
      (split-drop ends k b) (tail-split-cons ends c b)

pub split-append :
    (ends : ℕ → Bool) (c : ℕ) (a b : Bytes)
    → ends c ≡ true
    → split ends (a ++ c ∷ b) ≡ split ends a ++ split ends b
unfolding split
split-append ends c [] b h = rw h
split-append ends c (x ∷ a) b h =
    let (l, ls, e) = split_some ends a in
    elim (Bool-cases (ends x)) [
      | inl y ↦ rw (y, split-append ends c a b h) refl
      | inr n ↦ rw (n, split-append ends c a b h, e) (cons_head-append x l ls (split ends b))
    ]

pub lines_of-append :
    (ends : ℕ → Bool) (c : ℕ) (a b : Bytes)
    → ends c ≡ true
    → lines_of ends (a ++ c ∷ b) ≡ lines_of ends a ++ lines_of ends b
unfolding lines_of
lines_of-append ends c a b h =
    ap (filter (λ l. not (is_blank l))) (split-append ends c a b h)
    ∙ filter-append (λ l. not (is_blank l)) (split ends a) (split ends b)

pub split-line :
    (ends : ℕ → Bool) (b : Bytes) → all (λ c. not (ends c)) b ≡ true → split ends b ≡ b ∷ []
unfolding split cons_head
split-line ends [] h = refl
split-line ends (c ∷ b) h = elim (Bool-cases (ends c)) [
  | inl y ↦ ground arith
  | inr n ↦ rw (n, split-line ends b (ground arith)) refl
]

-- One line.
pub lines_of-line :
    (ends : ℕ → Bool) (b : Bytes)
    → all (λ c. not (ends c)) b ≡ true
    → is_blank b ≡ false
    → lines_of ends b ≡ b ∷ []
unfolding lines_of
lines_of-line ends b h k =
    ap (filter (λ l. not (is_blank l))) (split-line ends b h)
    ∙ filter_yes (λ l. not (is_blank l)) b [] (ap not k)
