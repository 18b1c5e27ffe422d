-- ===== src/Paths/Minimal/Cover.antt =====
-- `minimal_globs` of core/paths.py drops no path: its result matches what the patterns match.
use supervisor_harness.Prelude.{
  ◌≡◌, sym, ◌∙◌, ap, ◌↔◌, ◌⊎◌, inl, inr, Bool, true, not, ◌||◌, List, [], ◌∷◌, ◌++◌, arith, All,
  Bool-cases, any, filter, filter_yes, filter_no,
}
use supervisor_harness.Text.{Text}
use supervisor_harness.Paths.{path_matches, pattern_within, matches_any}
use supervisor_harness.Paths.Sets.{keep_minimal, minimal_from, minimal_globs}
use supervisor_harness.Paths.Narrow.{AreComparable, matches_any-append, matches_any-one}
use supervisor_harness.Paths.Minimal.{
  All-filter, All-snoc, or_true, minimal_globs-eq, keep_minimal-matches,
}

-- Each pattern is comparable with those before it.
abbrev pub InOrder : List Text → Type 0
InOrder [] = Unit
InOrder (x ∷ xs) = All (λ q. AreComparable q x) xs × InOrder xs

keep_minimal-All :
    (P : Text → Type 0) (kept : List Text) (p : Text)
    → All P kept
    → P p
    → All P (keep_minimal kept p)
unfolding keep_minimal
keep_minimal-All P kept p h x = elim (Bool-cases (any (λ k. pattern_within p k) kept)) [
  | inl e ↦ rw (e, keep_minimal) h
  | inr e ↦
      rw (e, keep_minimal)
        (All-snoc P (filter (λ k. not (pattern_within k p)) kept) p
          (All-filter P (λ k. not (pattern_within k p)) kept h) x)
]

-- What is left to read is comparable with what is kept.
abbrev Ready : List Text → List Text → Type 0
Ready kept rest = All (λ p. All (λ k. AreComparable p k) kept) rest

Ready-step :
    (kept : List Text) (p : Text) (rest : List Text)
    → Ready kept rest
    → All (λ q. AreComparable q p) rest
    → Ready (keep_minimal kept p) rest
Ready-step kept p [] h k = tt
Ready-step kept p (q ∷ rest) h k =
    (keep_minimal-All (λ j. AreComparable q j) kept p h.0 k.0, Ready-step kept p rest h.1 k.1)

module _ (path : Text) where
  minimal_from-keeps :
      (ps kept : List Text)
      → Ready kept ps
      → InOrder ps
      → (matches_any path kept ≡ true) ⊎ (matches_any path ps ≡ true)
      → matches_any path (minimal_from kept ps) ≡ true
  unfolding minimal_from matches_any
  minimal_from-keeps [] kept r o m = elim m [ inl k ↦ k | inr n ↦ cc n ]
  minimal_from-keeps (p ∷ ps) kept r o m =
      let next = keep_minimal kept p in
      let ready = Ready-step kept p ps r.1 o.0 in
      elim m [
        | inl k ↦
            minimal_from-keeps ps next ready o.1
              (inl (keep_minimal-matches path p kept r.0 (inl k)))
        | inr n ↦ elim (or_true (path_matches path p) (matches_any path ps) n) [
          | inl here ↦
              minimal_from-keeps ps next ready o.1
                (inl (keep_minimal-matches path p kept r.0 (inr here)))
          | inr later ↦ minimal_from-keeps ps next ready o.1 (inr later)
        ]
      ]

  filter-adds_none :
      (f : Text → Bool) (kept : List Text)
      → matches_any path (filter f kept) ≡ true
      → matches_any path kept ≡ true
  unfolding matches_any
  filter-adds_none f [] m = m
  filter-adds_none f (k ∷ kept) m = elim (Bool-cases (f k)) [
    | inl e ↦
        let shown = ap (matches_any path) (filter_yes f k kept e) in
        ground (arith, shown, filter-adds_none f kept)
    | inr e ↦
        let shown = ap (matches_any path) (filter_no f k kept e) in
        ground (arith, shown, filter-adds_none f kept)
  ]

  keep_minimal-adds_none :
      (kept : List Text) (p : Text)
      → matches_any path (keep_minimal kept p) ≡ true
      → (matches_any path kept ≡ true) ⊎ (path_matches path p ≡ true)
  unfolding keep_minimal
  keep_minimal-adds_none kept p m =
      let uncovered : Text → Bool = λ k. not (pattern_within k p) in
      elim (Bool-cases (any (λ k. pattern_within p k) kept)) [
        | inl e ↦ inl (rw (e, keep_minimal) at m)
        | inr e ↦
            let split : matches_any path (filter uncovered kept ++ p ∷ []) ≡ true =
              rw (e, keep_minimal) at m in
            let either : (matches_any path (filter uncovered kept) || path_matches path p) ≡ true =
              sym (
                matches_any-append path (filter uncovered kept) (p ∷ [])
                ∙ ap (λ b. matches_any path (filter uncovered kept) || b) (matches_any-one path p))
              ∙ split in
            elim (or_true (matches_any path (filter uncovered kept)) (path_matches path p) either) [
              | inl old ↦ inl (filter-adds_none uncovered kept old)
              | inr new ↦ inr new
            ]
      ]

  minimal_from-adds_none :
      (ps kept : List Text)
      → matches_any path (minimal_from kept ps) ≡ true
      → (matches_any path kept ≡ true) ⊎ (matches_any path ps ≡ true)
  unfolding minimal_from matches_any
  minimal_from-adds_none [] kept m = inl m
  minimal_from-adds_none (p ∷ ps) kept m =
      elim (minimal_from-adds_none ps (keep_minimal kept p) m) [
        | inl k ↦ elim (keep_minimal-adds_none kept p k) [
          | inl old ↦ inl old
          | inr here ↦ inr (rw here)
        ]
        | inr later ↦ inr (ground arith)
      ]

Ready-nil : (ps : List Text) → Ready [] ps
Ready-nil [] = tt
Ready-nil (p ∷ ps) = (tt, Ready-nil ps)

unmatched : (path : Text) → ¬ (matches_any path [] ≡ true)
unfolding matches_any
unmatched path h = cc h

-- The result matches exactly the paths that the patterns match, when no pair of them has one of
-- the shapes on which `pattern_within` is no proof.
pub minimal_globs-matches_any :
    (path : Text) (patterns : List Text)
    → InOrder patterns
    → (matches_any path (minimal_globs patterns) ≡ true) ↔ (matches_any path patterns ≡ true)
minimal_globs-matches_any path patterns o =
    let shown = ap (matches_any path) (minimal_globs-eq patterns) in
    (
      λ m. elim (minimal_from-adds_none path patterns [] (sym shown ∙ m)) [
        | inl none_kept ↦ absurd (unmatched path none_kept)
        | inr found ↦ found
      ],
      λ m. shown ∙ minimal_from-keeps path patterns [] (Ready-nil patterns) o (inr m),
    )
