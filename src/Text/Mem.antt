-- ===== src/Text/Mem.antt =====
-- Laws of `text in texts`.
use supervisor_harness.Prelude.{
  ◌≡◌, refl, sym, ap, ◌∙◌, inl, inr, Bool, true, false, ◌&&◌, ◌||◌, List, [], ◌∷◌, ◌++◌, arith,
  Bool-cases, filter, filter_yes, filter_no, is_empty,
}
use supervisor_harness.Text.Ops.{Text, text_eq, mem}
use supervisor_harness.Text.Laws.{eq_of-text_eq}

pub mem-append : (t : Text) (xs ys : List Text) → mem t (xs ++ ys) ≡ (mem t xs || mem t ys)
unfolding mem
mem-append t [] ys = refl
mem-append t (x ∷ xs) ys = ground (arith, mem-append t xs ys)

pub mem-cons : (t x : Text) (xs : List Text) → mem t (x ∷ xs) ≡ (text_eq x t || mem t xs)
unfolding mem
mem-cons t x xs = refl

-- A text that the test refuses is not in what it lets through.
mem-filter_step :
    (f : Text → Bool) (t x : Text) (xs : List Text)
    → mem t (filter f xs) ≡ (f t && mem t xs)
    → mem t (filter f (x ∷ xs)) ≡ (f t && (text_eq x t || mem t xs))
mem-filter_step f t x xs ih = elim (Bool-cases (text_eq x t)) [
  | inl e ↦
      let same : f x ≡ f t = ap f (eq_of-text_eq x t e) in
      elim (Bool-cases (f x)) [
        | inl y ↦
            ap (mem t) (filter_yes f x xs y)
            ∙ mem-cons t x (filter f xs)
            ∙ (ground (arith, e, same, y))
        | inr n ↦ ap (mem t) (filter_no f x xs n) ∙ (ground (arith, ih, same, n))
      ]
  | inr e ↦ elim (Bool-cases (f x)) [
    | inl y ↦
        ap (mem t) (filter_yes f x xs y) ∙ mem-cons t x (filter f xs) ∙ (ground (arith, e, ih))
    | inr n ↦ ap (mem t) (filter_no f x xs n) ∙ (ground (arith, ih, e))
  ]
]

pub mem-filter :
    (f : Text → Bool) (t : Text) (xs : List Text) → mem t (filter f xs) ≡ (f t && mem t xs)
mem-filter f t [] = unfold mem in ground arith
mem-filter f t (x ∷ xs) =
    mem-filter_step f t x xs (mem-filter f t xs) ∙ ap (λ b. f t && b) (sym (mem-cons t x xs))

pub mem-of_empty : (t : Text) (xs : List Text) → is_empty xs ≡ true → mem t xs ≡ false
unfolding mem
mem-of_empty t [] h = refl
mem-of_empty t (x ∷ xs) h = cc h
