-- ===== src/Paths/Minimal.antt =====
-- `minimal_globs` of core/paths.py: a scope without the patterns that others cover.
pub mod Cover
use supervisor_harness.Prelude.{
  ◌≡◌, refl, sym, ◌∙◌, ap, ◌↔◌, ◌⊎◌, inl, inr, Bool, true, false, not, ◌||◌, List, [], ◌∷◌, ◌++◌,
  arith, All, Bool-cases, any, filter, if◌then◌else◌, subst, filter_yes, filter_no,
}
use supervisor_harness.Text.{Text}
use supervisor_harness.Paths.{path_matches, pattern_within, matches_any}
use supervisor_harness.Paths.Sets.{keep_minimal, minimal_from, minimal_globs}
use supervisor_harness.Paths.Contain.{pattern_within-path_matches}
use supervisor_harness.Paths.Narrow.{AreComparable, matches_any-append, matches_any-one}

pub or_true : (a b : Bool) → (a || b) ≡ true → (a ≡ true) ⊎ (b ≡ true)
or_true a b h = ground arith

-- No pattern of the list lies within another of it.
abbrev pub Antichain : List Text → Type 0
Antichain [] = Unit
Antichain (x ∷ xs) =
    All (λ y. (pattern_within x y ≡ false) × (pattern_within y x ≡ false)) xs × Antichain xs

pub All-filter :
    (P : Text → Type 0) (f : Text → Bool) (xs : List Text) → All P xs → All P (filter f xs)
All-filter P f [] h = tt
All-filter P f (x ∷ xs) h = elim (Bool-cases (f x)) [
  | inl e ↦ subst (All P) (sym (filter_yes f x xs e)) (h.0, All-filter P f xs h.1)
  | inr e ↦ subst (All P) (sym (filter_no f x xs e)) (All-filter P f xs h.1)
]

pub All-snoc :
    (P : Text → Type 0) (xs : List Text) (x : Text) → All P xs → P x → All P (xs ++ x ∷ [])
All-snoc P [] x h p = (p, tt)
All-snoc P (y ∷ xs) x h p = (h.0, All-snoc P xs x h.1 p)

Antichain-filter : (f : Text → Bool) (xs : List Text) → Antichain xs → Antichain (filter f xs)
Antichain-filter f [] h = tt
Antichain-filter f (x ∷ xs) h = elim (Bool-cases (f x)) [
  | inl e ↦ subst Antichain (sym (filter_yes f x xs e)) (
    All-filter (λ y. (pattern_within x y ≡ false) × (pattern_within y x ≡ false)) f xs h.0,
    Antichain-filter f xs h.1,
  )
  | inr e ↦ subst Antichain (sym (filter_no f x xs e)) (Antichain-filter f xs h.1)
]

Antichain-snoc :
    (xs : List Text) (p : Text)
    → Antichain xs
    → All (λ k. (pattern_within k p ≡ false) × (pattern_within p k ≡ false)) xs
    → Antichain (xs ++ p ∷ [])
Antichain-snoc [] p h k = (tt, tt)
Antichain-snoc (x ∷ xs) p h k = (All-snoc _ xs p h.0 k.0, Antichain-snoc xs p h.1 k.1)

-- The kept patterns that the new one does not cover are apart from it.
apart-filter :
    (p : Text) (kept : List Text)
    → any (λ k. pattern_within p k) kept ≡ false
    → All
        (λ k. (pattern_within k p ≡ false) × (pattern_within p k ≡ false))
        (filter (λ k. not (pattern_within k p)) kept)
apart-filter p [] h = tt
apart-filter p (k ∷ kept) h =
    let Apart : Text → Type 0 = λ j. (pattern_within j p ≡ false) × (pattern_within p j ≡ false) in
    let uncovered : Text → Bool = λ j. not (pattern_within j p) in
    elim (Bool-cases (pattern_within k p)) [
      | inl e ↦
          subst (All Apart) (sym (filter_no uncovered k kept (rw e)))
            (apart-filter p kept (ground arith))
      | inr e ↦
          subst (All Apart) (sym (filter_yes uncovered k kept (rw e)))
            ((e, ground arith), apart-filter p kept (ground arith))
    ]

keep_minimal-Antichain :
    (kept : List Text) (p : Text) → Antichain kept → Antichain (keep_minimal kept p)
unfolding keep_minimal
keep_minimal-Antichain kept p h = elim (Bool-cases (any (λ k. pattern_within p k) kept)) [
  | inl e ↦ rw (e, keep_minimal) h
  | inr e ↦
      rw (e, keep_minimal)
        (Antichain-snoc (filter (λ k. not (pattern_within k p)) kept) p
          (Antichain-filter (λ k. not (pattern_within k p)) kept h) (apart-filter p kept e))
]

minimal_from-Antichain : (ps kept : List Text) → Antichain kept → Antichain (minimal_from kept ps)
unfolding minimal_from
minimal_from-Antichain [] kept h = h
minimal_from-Antichain (p ∷ ps) kept h =
    minimal_from-Antichain ps (keep_minimal kept p) (keep_minimal-Antichain kept p h)

pub minimal_globs-eq : (ps : List Text) → minimal_globs ps ≡ minimal_from [] ps
unfolding minimal_globs
minimal_globs-eq ps = refl

-- No pattern of the result lies within another of it, whatever the patterns.
pub minimal_globs-Antichain : (patterns : List Text) → Antichain (minimal_globs patterns)
minimal_globs-Antichain patterns =
    rw (minimal_globs-eq patterns) (minimal_from-Antichain patterns [] tt)

module _ (path p : Text) where
  -- A kept pattern that the new one covers leaves its paths to the new one.
  filter-matches :
      (kept : List Text)
      → All (λ k. AreComparable p k) kept
      → matches_any path kept ≡ true
      → (matches_any path (filter (λ k. not (pattern_within k p)) kept) ≡ true)
        ⊎ (path_matches path p ≡ true)
  unfolding matches_any
  filter-matches [] c m = cc m
  filter-matches (k ∷ kept) c m =
      let uncovered : Text → Bool = λ j. not (pattern_within j p) in
      elim (Bool-cases (pattern_within k p)) [
        | inl e ↦
            rw (filter_no uncovered k kept (rw e))
              (elim (or_true (path_matches path k) (matches_any path kept) m) [
                | inl here ↦ inr (
                    pattern_within-path_matches path k p c.0.y_normal c.0.x_normal c.0.backwards e
                      here)
                | inr later ↦ filter-matches kept c.1 later
              ])
        | inr e ↦
            rw (filter_yes uncovered k kept (rw e))
              (elim (or_true (path_matches path k) (matches_any path kept) m) [
                | inl here ↦ inl (rw here)
                | inr later ↦ elim (filter-matches kept c.1 later) [
                  | inl l ↦ inl (ground arith)
                  | inr r ↦ inr r
                ]
              ])
      ]

  any-matches :
      (kept : List Text)
      → All (λ k. AreComparable p k) kept
      → any (λ k. pattern_within p k) kept ≡ true
      → path_matches path p ≡ true
      → matches_any path kept ≡ true
  unfolding matches_any
  any-matches [] c h m = cc h
  any-matches (k ∷ kept) c h m =
      elim (or_true (pattern_within p k) (any (λ j. pattern_within p j) kept) h) [
        | inl e ↦
            let here =
              pattern_within-path_matches path p k c.0.x_normal c.0.y_normal c.0.forwards e m in
            ground arith
        | inr later ↦ let rest = any-matches kept c.1 later m in ground arith
      ]

  pub keep_minimal-matches :
      (kept : List Text)
      → All (λ k. AreComparable p k) kept
      → (matches_any path kept ≡ true) ⊎ (path_matches path p ≡ true)
      → matches_any path (keep_minimal kept p) ≡ true
  unfolding keep_minimal
  keep_minimal-matches kept c m =
      let rest = filter (λ k. not (pattern_within k p)) kept in
      elim (Bool-cases (any (λ k. pattern_within p k) kept)) [
        | inl e ↦
            rw (e, keep_minimal) (elim m [ inl old ↦ old | inr new ↦ any-matches kept c e new ])
        | inr e ↦
            let shape = matches_any-append path rest (p ∷ []) in
            let last = matches_any-one path p in
            rw (e, keep_minimal)
              (elim m [
                | inl old ↦ elim (filter-matches kept c old) [
                  | inl l ↦ ground (arith, shape)
                  | inr r ↦ ground (arith, shape, last)
                ]
                | inr new ↦ ground (arith, shape, last)
              ])
      ]
