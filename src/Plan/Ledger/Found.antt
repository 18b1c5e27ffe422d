-- ===== src/Plan/Ledger/Found.antt =====
-- core/requirements.py: where the searches of `grounded` and the slice of `cited` find what they keep.
use supervisor_harness.Prelude.{
  ℕ, zero, suc, ◌+◌, ◌-◌, ◌≤◌, ◌≡◌, refl, sym, ap, ◌∙◌, subst, inl, inr, true, false, not, ◌&&◌,
  Option, none, some, List, [], ◌∷◌, ◌++◌, length, length-append, append_assoc, map, filter, any,
  is_empty, leb, drop, Any, arith, Bool-cases, Option-cases,
}
use supervisor_harness.Text.{
  Text, text_eq, mem, starts_with, drop_prefix, drop_prefix_lem, eq_of-text_eq, text_eq_refl, strip,
}
use supervisor_harness.Plan.Criteria.{join}
use supervisor_harness.Plan.Ledger.{Uncited, refused, body, grounded, lines_between}
use supervisor_harness.Plan.Ledger.Flat.{
  flat, pieces, is_longer, after_first, find_in_order, take_lines,
}

-- Each piece stands in the text, after the one before it.
abbrev pub InOrder : List Text → Text → Type 0
InOrder [] t = Unit
InOrder (p ∷ ps) t = (before : Text) × (rest : Text) × (t ≡ before ++ p ++ rest) × InOrder ps rest

none≢some {κ} : {A : Type κ} {a : A} → none ≡ some a → ⊥
none≢some h = cc

after_first-some :
    (p t rest : Text) → after_first p t ≡ some rest → (before : Text) × (t ≡ before ++ p ++ rest)
unfolding after_first
after_first-some [] [] rest h = ([], ground arith)
after_first-some (x ∷ p) [] rest h = absurd (none≢some h)
after_first-some p (c ∷ t) rest h = elim (Bool-cases (starts_with p (c ∷ t))) [
  | inl y ↦
      let same : some (drop_prefix p (c ∷ t)) ≡ some rest = rw (y, after_first) at h in
      let left : drop_prefix p (c ∷ t) ≡ rest = cc same in
      ([], drop_prefix_lem p (c ∷ t) y ∙ ap (λ z. p ++ z) left)
  | inr n ↦
      let (before, e) = after_first-some p t rest (rw (n, after_first) at h) in
      (c ∷ before, ap (λ z. c ∷ z) e)
]

pub find_in_order-InOrder : (ps : List Text) (t : Text) → find_in_order ps t ≡ true → InOrder ps t
unfolding find_in_order
find_in_order-InOrder [] t h = tt
find_in_order-InOrder (p ∷ ps) t h = elim (Option-cases (after_first p t)) [
  | inl e ↦ let no_way : false ≡ true = rw (e, find_in_order) at h in absurd (cc no_way)
  | inr (rest, e) ↦
      let (before, whole) = after_first-some p t rest e in
      (before, rest, whole, find_in_order-InOrder ps rest (rw (e, find_in_order) at h))
]

any-Any : (n : ℕ) (ps : List Text) → any (is_longer n) ps ≡ true → Any (λ p. n ≤ length p) ps
any-Any n [] h = cc h
any-Any n (p ∷ ps) h = elim (Bool-cases (is_longer n p)) [
  | inl y ↦ inl (ground arith)
  | inr f ↦ inr (any-Any n ps (ground arith))
]

-- The text is one of the list.
pub mem-Any : (t : Text) (xs : List Text) → mem t xs ≡ true → Any (λ x. x ≡ t) xs
unfolding mem
mem-Any t [] h = cc h
mem-Any t (x ∷ xs) h = elim (Bool-cases (text_eq x t)) [
  | inl y ↦ inl (eq_of-text_eq x t y)
  | inr f ↦ inr (mem-Any t xs (ground arith))
]

pub mem-none : (t : Text) (xs : List Text) → mem t xs ≡ false → Any (λ x. x ≡ t) xs → ⊥
unfolding mem
mem-none t [] h k = k
mem-none t (x ∷ xs) h (inl e) =
    let same : text_eq x t ≡ true = ap (λ z. text_eq z t) e ∙ text_eq_refl t in ground arith
mem-none t (x ∷ xs) h (inr k) = mem-none t xs (ground arith) k

take_lines-split :
    (n : ℕ) (xs : List Text)
    → n ≤ length xs
    → (after : List Text) × (xs ≡ take_lines n xs ++ after) × (length (take_lines n xs) ≡ n)
unfolding take_lines
take_lines-split zero xs h = (xs, refl, refl)
take_lines-split (suc n) [] h = absurd (omega (arith, h))
take_lines-split (suc n) (x ∷ xs) h =
    let (after, e, l) = take_lines-split n xs (omega (arith, h)) in
    (after, ap (λ z. x ∷ z) e, ap suc l)

drop-split :
    (n : ℕ) (xs : List Text)
    → n ≤ length xs
    → (before : List Text) × (xs ≡ before ++ drop n xs) × (length before ≡ n)
drop-split zero xs h = ([], refl, refl)
drop-split (suc n) [] h = absurd (omega (arith, h))
drop-split (suc n) (x ∷ xs) h =
    let (before, e, l) = drop-split n xs (omega (arith, h)) in
    (x ∷ before, ap (λ z. x ∷ z) e, ap suc l)

pub refused≢body : (why : Uncited) (b : Text) → refused why ≡ body b → ⊥
refused≢body why b h = cc h

body_inj : (a b : Text) → body a ≡ body b → a ≡ b
body_inj a b h = cc h

module _ (casefold : Text → Text) where
  -- The pieces of a quote, as they are compared.
  abbrev pub parts : Text → List Text
  parts quote = filter (λ p. not (is_empty p)) (map (flat casefold) (pieces quote))

  -- A piece of a quote has 12 characters or more, and the pieces stand in the text in their order.
  abbrev pub IsQuoted : Text → Text → Type 0
  IsQuoted quote text =
      Any (λ p. 12 ≤ length p) (parts quote) × InOrder (parts quote) (flat casefold text)

  pub grounded-IsQuoted :
      (quote text : Text) → grounded casefold quote text ≡ true → IsQuoted quote text
  unfolding grounded
  grounded-IsQuoted quote text h = (
    any-Any 12 (parts quote) (ground arith),
    find_in_order-InOrder (parts quote) (flat casefold text) (ground arith),
  )

  -- The lines from `first` to `last`, counted from 1: 40 of them at most, and `text` is what they are
  -- without the space around them, 12 characters or more as it is compared.
  pub record IsRange (all_lines : List Text) (first last : ℕ) (text : Text) : Type 0 where
    pub before : List Text
    pub range : List Text
    pub after : List Text
    pub whole : all_lines ≡ before ++ range ++ after
    pub starts : length before + 1 ≡ first
    pub ends : length before + length range ≡ last
    pub some_line : 1 ≤ length range
    pub most : length range ≤ 40
    pub stripped : text ≡ strip (join (10 ∷ []) range)
    pub enough : 12 ≤ length (flat casefold text)

  module _ (read_source : Text → Option Text) (line_range : Text → Option (ℕ × Option ℕ)) where
    -- The lines that pass the tests of the range.
    range_of :
        (all_lines : List Text) (first last : ℕ)
        → 1 ≤ first
        → first ≤ last
        → last ≤ length all_lines
        → (before range after : List Text) × (all_lines ≡ before ++ range ++ after)
          × (length before + 1 ≡ first)
          × (length before + length range ≡ last)
          × (range ≡ take_lines (last - (first - 1)) (drop (first - 1) all_lines))
    range_of all_lines first last a b c =
        let (before, e, l) = drop-split (first - 1) all_lines (omega (arith, a, b, c)) in
        let rest = drop (first - 1) all_lines in
        let total : length all_lines ≡ length before + length rest =
          ap length e ∙ length-append {0} before rest in
        let n = last - (first - 1) in
        let (after, f, m) = take_lines-split n rest (omega (arith, total, l, a, b, c)) in
        (
          before,
          take_lines n rest,
          after,
          e ∙ ap (λ z. before ++ z) f ∙ sym (append_assoc before (take_lines n rest) after),
          omega (arith, l, a),
          omega (arith, l, m, a, b),
          refl,
        )

    pub lines_between-IsRange :
        (all_lines : List Text) (first last : ℕ) (text : Text)
        → lines_between casefold read_source line_range all_lines first last ≡ body text
        → IsRange all_lines first last text
    unfolding lines_between
    lines_between-IsRange all_lines first last text h =
        let cut = take_lines (last - (first - 1)) (drop (first - 1) all_lines) in
        let kept : Text = strip (join (10 ∷ []) cut) in
        elim (Bool-cases (leb 1 first && leb first last && leb last (length all_lines))) [
          | inr n ↦ absurd (refused≢body _ text (rw (lines_between, n) at h))
          | inl y ↦ elim (Bool-cases (leb ((last + 1) - first) 40)) [
            | inr n ↦ absurd (refused≢body _ text (rw (lines_between, y, n) at h))
            | inl few ↦ elim (Bool-cases (is_longer 12 (flat casefold kept))) [
              | inr n ↦ absurd (refused≢body _ text (rw (lines_between, y, few, n) at h))
              | inl enough ↦
                  let same : kept ≡ text =
                    body_inj kept text (rw (lines_between, y, few, enough) at h) in
                  let a : 1 ≤ first = ground arith in
                  let b : first ≤ last = ground arith in
                  let c : last ≤ length all_lines = ground arith in
                  let f : (last + 1) - first ≤ 40 = ground arith in
                  let long : 12 ≤ length (flat casefold kept) = ground arith in
                  let (before, range, after, whole, starts, ends, slice) =
                    range_of all_lines first last a b c in
                  record {
                    before = before;
                    range = range;
                    after = after;
                    whole = whole;
                    starts = starts;
                    ends = ends;
                    some_line = omega (arith, starts, ends, b);
                    most = omega (arith, starts, ends, f);
                    stripped = sym same ∙ ap (λ z. strip (join (10 ∷ []) z)) (sym slice);
                    enough = subst (λ z. 12 ≤ length (flat casefold z)) same long;
                  }
            ]
          ]
        ]
