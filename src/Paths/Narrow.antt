-- ===== src/Paths/Narrow.antt =====
-- `narrow_globs` of core/paths.py: the intersection of two scopes.
use supervisor_harness.Prelude.{
  ◌≡◌, refl, sym, inl, inr, true, false, none, some, List, [], ◌∷◌, ◌++◌, arith, All, Bool-cases,
  is_empty, ◌||◌, ◌∙◌, ap,
}
use supervisor_harness.Text.{Text, text_eq, mem}
use supervisor_harness.Paths.{path_matches, pattern_within, matches_any, matches_normal, nothing}
use supervisor_harness.Paths.Sets.{
  clean, pick, add_pick, narrow_row, narrow_rows, or_nothing, narrow_clean, narrow_globs,
}
use supervisor_harness.Paths.Match.{IsNormal}
use supervisor_harness.Paths.Contain.{IsAligned, pattern_within-path_matches}

All-zip {ℓ} :
    {A : Type ℓ} (P Q : A → Type 0) (xs : List A) → All P xs → All Q xs → All (λ x. P x × Q x) xs
All-zip P Q [] p q = tt
All-zip P Q (x ∷ xs) p q = ((p.0, q.0), All-zip P Q xs p.1 q.1)

-- Neither direction of `pattern_within` on the two patterns is one of the shapes on which its
-- answer is no proof.
pub record AreComparable (x y : Text) : Type 0 where
  pub x_normal : IsNormal x
  pub y_normal : IsNormal y
  pub forwards : IsAligned x y
  pub backwards : IsAligned y x

abbrev pub AllPairs : (Text → Text → Type 0) → List Text → List Text → Type 0
AllPairs R xs ys = All (λ x. All (λ y. R x y) ys) xs

pub matches_any-append :
    (path : Text) (xs ys : List Text)
    → matches_any path (xs ++ ys) ≡ (matches_any path xs || matches_any path ys)
unfolding matches_any
matches_any-append path [] ys = refl
matches_any-append path (x ∷ xs) ys = ground (arith, matches_any-append path xs ys)

pub matches_any-one : (path p : Text) → matches_any path (p ∷ []) ≡ path_matches path p
unfolding matches_any
matches_any-one path p = ground arith

matches_normal-nothing : (path : Text) → matches_normal path nothing ≡ false
unfolding matches_normal text_eq
matches_normal-nothing path = ground arith

-- NOTHING matches no path, not even one that is spelled the same.
pub path_matches-nothing : (path : Text) → path_matches path nothing ≡ false
unfolding path_matches
path_matches-nothing path = matches_normal-nothing path

or_nothing_full : (ps : List Text) → is_empty (or_nothing ps) ≡ false
or_nothing_full [] = refl
or_nothing_full (p ∷ ps) = refl

narrow_clean_full :
    (left right : List Text) → is_empty right ≡ false → is_empty (narrow_clean left right) ≡ false
unfolding narrow_clean
narrow_clean_full left [] h = cc
narrow_clean_full [] (o ∷ right) h = refl
narrow_clean_full (i ∷ left) (o ∷ right) h = or_nothing_full (narrow_rows (i ∷ left) (o ∷ right) [])

pub narrow_globs-eq :
    (inner outer : List Text) → narrow_globs inner outer ≡ narrow_clean (clean inner) (clean outer)
unfolding narrow_globs
narrow_globs-eq inner outer = refl

-- The result is never the empty list, which would mean the whole workspace, when `outer` holds a
-- pattern.
pub narrow_globs_full :
    (inner outer : List Text)
    → is_empty (clean outer) ≡ false
    → is_empty (narrow_globs inner outer) ≡ false
narrow_globs_full inner outer h =
    ap is_empty (narrow_globs-eq inner outer) ∙ narrow_clean_full (clean inner) (clean outer) h

pub pick-inner : (i o : Text) → pattern_within i o ≡ true → pick i o ≡ some i
unfolding pick
pick-inner i o h = rw h

pub pick-outer :
    (i o : Text) → pattern_within i o ≡ false → pattern_within o i ≡ true → pick i o ≡ some o
unfolding pick
pick-outer i o h k = rw (h, k)

pub pick-none :
    (i o : Text) → pattern_within i o ≡ false → pattern_within o i ≡ false → pick i o ≡ none
unfolding pick
pick-none i o h k = rw (h, k)

module _ (path : Text) (L R : Type 0) where
  -- A path that the patterns kept so far match is on both sides.
  abbrev Both : List Text → Type 0
  Both kept = matches_any path kept ≡ true → L × R

  add_pick-some :
      (p : Text) (kept : List Text)
      → (path_matches path p ≡ true → L × R)
      → Both kept
      → Both (add_pick kept (some p))
  unfolding add_pick
  add_pick-some p kept new old m = elim (Bool-cases (mem p kept)) [
    | inl e ↦ old (rw (e, add_pick) at m)
    | inr e ↦
        let either : (matches_any path kept || path_matches path p) ≡ true =
          sym (
            matches_any-append path kept (p ∷ [])
            ∙ ap (λ b. matches_any path kept || b) (matches_any-one path p))
          ∙ (rw (e, add_pick) at m) in
        elim (Bool-cases (matches_any path kept)) [ inl k ↦ old k | inr k ↦ new (rw k at either) ]
  ]

  add_pick-Both :
      (i o : Text) (kept : List Text)
      → AreComparable i o
      → (path_matches path i ≡ true → L)
      → (path_matches path o ≡ true → R)
      → Both kept
      → Both (add_pick kept (pick i o))
  unfolding add_pick
  add_pick-Both i o kept c l r k = elim (Bool-cases (pattern_within i o)) [
    | inl e ↦ rw (pick-inner i o e) (
        add_pick-some i kept
          (λ m.
            (l m, r (pattern_within-path_matches path i o c.x_normal c.y_normal c.forwards e m)))
          k)
    | inr e ↦ elim (Bool-cases (pattern_within o i)) [
      | inl f ↦ rw (pick-outer i o e f) (
          add_pick-some o kept
            (λ m.
              (l (pattern_within-path_matches path o i c.y_normal c.x_normal c.backwards f m), r m))
            k)
      | inr f ↦ rw (pick-none i o e f, add_pick) k
    ]
  ]

  narrow_row-Both :
      (i : Text) (right kept : List Text)
      → (path_matches path i ≡ true → L)
      → All (λ o. (path_matches path o ≡ true → R) × AreComparable i o) right
      → Both kept
      → Both (narrow_row i right kept)
  unfolding narrow_row
  narrow_row-Both i [] kept l r k = k
  narrow_row-Both i (o ∷ right) kept l r k =
      narrow_row-Both i right (add_pick kept (pick i o)) l r.1
        (add_pick-Both i o kept r.0.1 l r.0.0 k)

  narrow_rows-Both :
      (left right kept : List Text)
      → All (λ i. path_matches path i ≡ true → L) left
      → All (λ o. path_matches path o ≡ true → R) right
      → AllPairs AreComparable left right
      → Both kept
      → Both (narrow_rows left right kept)
  unfolding narrow_rows
  narrow_rows-Both [] right kept l r c k = k
  narrow_rows-Both (i ∷ left) right kept l r c k =
      narrow_rows-Both left right (narrow_row i right kept) l.1 r c.1 (
        narrow_row-Both i right kept l.0
          (All-zip (λ o. path_matches path o ≡ true → R) (λ o. AreComparable i o) right r c.0) k)

pub each-matches :
    (path : Text) (M : Type 0) (ps : List Text)
    → (matches_any path ps ≡ true → M)
    → All (λ p. path_matches path p ≡ true → M) ps
unfolding matches_any
each-matches path M [] f = tt
each-matches path M (p ∷ ps) f =
    (λ m. f (ground arith), each-matches path M ps (λ m. f (ground arith)))

matches_any-or_nothing :
    (path : Text) (ps : List Text)
    → matches_any path (or_nothing ps) ≡ true
    → matches_any path ps ≡ true
matches_any-or_nothing path [] m =
    cc (sym m ∙ matches_any-one path nothing ∙ path_matches-nothing path)
matches_any-or_nothing path (p ∷ ps) m = m

narrow_clean-matches_any :
    (path : Text) (left right : List Text)
    → is_empty left ≡ false
    → is_empty right ≡ false
    → AllPairs AreComparable left right
    → matches_any path (narrow_clean left right) ≡ true
    → (matches_any path left ≡ true) × (matches_any path right ≡ true)
unfolding narrow_clean
narrow_clean-matches_any path left right hl hr c m =
    let L : Type 0 = matches_any path left ≡ true in
    let R : Type 0 = matches_any path right ≡ true in
    narrow_rows-Both path L R left right [] (each-matches path L left (λ h. h))
      (each-matches path R right (λ h. h)) c (λ h. absurd (unmatched path h))
      (matches_any-or_nothing path (narrow_rows left right []) (rw (hl, hr) at m))
  where
    unmatched : (path : Text) → ¬ (matches_any path [] ≡ true)
    unmatched path h = unfold matches_any in cc h

-- What the narrowed list matches lies in both scopes, when each holds a pattern and no pair of
-- patterns has one of the shapes on which `pattern_within` is no proof.
pub narrow_globs-matches_any :
    (path : Text) (inner outer : List Text)
    → is_empty (clean inner) ≡ false
    → is_empty (clean outer) ≡ false
    → AllPairs AreComparable (clean inner) (clean outer)
    → matches_any path (narrow_globs inner outer) ≡ true
    → (matches_any path (clean inner) ≡ true) × (matches_any path (clean outer) ≡ true)
narrow_globs-matches_any path inner outer hl hr c m =
    narrow_clean-matches_any path (clean inner) (clean outer) hl hr c
      (sym (ap (matches_any path) (narrow_globs-eq inner outer)) ∙ m)
