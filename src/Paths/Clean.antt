-- ===== src/Paths/Clean.antt =====
-- `_clean` of core/paths.py, and the scopes that it leaves as they are but for repetitions.
use supervisor_harness.Prelude.{
  ◌≡◌, refl, sym, ◌∙◌, ap, ◌⊎◌, inl, inr, Bool, true, false, not, ◌&&◌, List, [], ◌∷◌, ◌++◌, arith,
  All, Bool-cases, is_empty, any, filter, if◌then◌else◌, subst,
}
use supervisor_harness.Text.{Text, mem}
use supervisor_harness.Paths.{normalise_pattern, nothing, pattern_within}
use supervisor_harness.Paths.Sets.{
  clean_from, clean, pick, add_pick, narrow_row, narrow_rows, or_nothing, narrow_clean,
  narrow_globs, keep_minimal, minimal_from, minimal_globs,
}
use supervisor_harness.Paths.Match.{IsNormal}
use supervisor_harness.Paths.Narrow.{
  narrow_globs_full, narrow_globs-eq, pick-inner, pick-outer, pick-none,
}
use supervisor_harness.Paths.Minimal.{All-snoc, minimal_globs-eq}

-- In normal form and not empty.
pub record IsProper (p : Text) : Type 0 where
  pub normal : IsNormal p
  pub full : is_empty p ≡ false

abbrev add_clean : List Text → Text → List Text
add_clean out pat = if not (is_empty pat) && not (mem pat out) then out ++ pat ∷ [] else out

if_not {ℓ} : {A : Type ℓ} (b : Bool) (x y : A) → (if not b then x else y) ≡ (if b then y else x)
if_not true x y = refl
if_not false x y = refl

add_clean-full :
    (out : List Text) (p : Text)
    → is_empty p ≡ false
    → add_clean out p ≡ (if mem p out then out else out ++ p ∷ [])
add_clean-full out [] h = cc
add_clean-full out (c ∷ p) h = if_not (mem (c ∷ p) out) (out ++ (c ∷ p) ∷ []) out

-- One round of the loop on a proper pattern.
clean_from-cons :
    (out : List Text) (p : Text) (rest : List Text)
    → IsProper p
    → clean_from out (p ∷ rest) ≡ clean_from (if mem p out then out else out ++ p ∷ []) rest
unfolding clean_from
clean_from-cons out p rest h =
    ap (λ o. clean_from o rest) (ap (add_clean out) h.normal ∙ add_clean-full out p h.full)

add_one-All :
    (P : Text → Type 0) (out : List Text) (p : Text)
    → All P out
    → P p
    → All P (if mem p out then out else out ++ p ∷ [])
add_one-All P out p h x = elim (Bool-cases (mem p out)) [
  | inl e ↦ rw e h
  | inr e ↦ rw e (All-snoc P out p h x)
]

add_one_full :
    (out : List Text) (p : Text) → is_empty (if mem p out then out else out ++ p ∷ []) ≡ false
unfolding mem
add_one_full [] p = refl
add_one_full (x ∷ out) p = ground arith

clean_from-IsProper :
    (out ps : List Text) → All IsProper out → All IsProper ps → All IsProper (clean_from out ps)
unfolding clean_from
clean_from-IsProper out [] h k = h
clean_from-IsProper out (p ∷ ps) h k = subst (All IsProper) (sym (clean_from-cons out p ps k.0)) (
    clean_from-IsProper (if mem p out then out else out ++ p ∷ []) ps
      (add_one-All IsProper out p h k.0) k.1)

clean_from_full :
    (out ps : List Text)
    → All IsProper ps
    → (is_empty out ≡ false) ⊎ (is_empty ps ≡ false)
    → is_empty (clean_from out ps) ≡ false
unfolding clean_from
clean_from_full out [] k h = elim h [ inl a ↦ a | inr b ↦ cc b ]
clean_from_full out (p ∷ ps) k h =
    ap is_empty (clean_from-cons out p ps k.0)
    ∙ clean_from_full (if mem p out then out else out ++ p ∷ []) ps k.1 (inl (add_one_full out p))

pub clean-IsProper : (ps : List Text) → All IsProper ps → All IsProper (clean ps)
clean-IsProper ps h = unfold clean in clean_from-IsProper [] ps tt h

pub clean_full :
    (ps : List Text) → All IsProper ps → is_empty ps ≡ false → is_empty (clean ps) ≡ false
clean_full ps h k = unfold clean in clean_from_full [] ps h (inr k)

add_pick-All :
    (P : Text → Type 0) (i o : Text) (kept : List Text)
    → P i
    → P o
    → All P kept
    → All P (add_pick kept (pick i o))
unfolding add_pick
add_pick-All P i o kept x y h = elim (Bool-cases (pattern_within i o)) [
  | inl e ↦ rw (pick-inner i o e, add_pick) (add_one-All P kept i h x)
  | inr e ↦ elim (Bool-cases (pattern_within o i)) [
    | inl f ↦ rw (pick-outer i o e f, add_pick) (add_one-All P kept o h y)
    | inr f ↦ rw (pick-none i o e f, add_pick) h
  ]
]

narrow_row-All :
    (P : Text → Type 0) (i : Text) (right kept : List Text)
    → P i
    → All P right
    → All P kept
    → All P (narrow_row i right kept)
unfolding narrow_row
narrow_row-All P i [] kept x r h = h
narrow_row-All P i (o ∷ right) kept x r h =
    narrow_row-All P i right (add_pick kept (pick i o)) x r.1 (add_pick-All P i o kept x r.0 h)

narrow_rows-All :
    (P : Text → Type 0) (left right kept : List Text)
    → All P left
    → All P right
    → All P kept
    → All P (narrow_rows left right kept)
unfolding narrow_rows
narrow_rows-All P [] right kept l r h = h
narrow_rows-All P (i ∷ left) right kept l r h =
    narrow_rows-All P left right (narrow_row i right kept) l.1 r
      (narrow_row-All P i right kept l.0 r h)

or_nothing-All : (P : Text → Type 0) (ps : List Text) → P nothing → All P ps → All P (or_nothing ps)
or_nothing-All P [] n h = (n, tt)
or_nothing-All P (p ∷ ps) n h = h

nothing-IsProper : IsProper nothing
unfolding normalise_pattern
nothing-IsProper = record { normal = refl; full = refl }

narrow_clean-All :
    (P : Text → Type 0) (left right : List Text)
    → P nothing
    → All P left
    → All P right
    → All P (narrow_clean left right)
unfolding narrow_clean
narrow_clean-All P left [] n l r = l
narrow_clean-All P [] (o ∷ right) n l r = r
narrow_clean-All P (i ∷ left) (o ∷ right) n l r =
    or_nothing-All P (narrow_rows (i ∷ left) (o ∷ right) []) n
      (narrow_rows-All P (i ∷ left) (o ∷ right) [] l r tt)

pub narrow_globs-IsProper :
    (inner outer : List Text)
    → All IsProper inner
    → All IsProper outer
    → All IsProper (narrow_globs inner outer)
narrow_globs-IsProper inner outer h k = subst (All IsProper) (sym (narrow_globs-eq inner outer)) (
    narrow_clean-All IsProper (clean inner) (clean outer) nothing-IsProper (clean-IsProper inner h)
      (clean-IsProper outer k))

append_full {ℓ} : {A : Type ℓ} (xs : List A) (x : A) → is_empty (xs ++ x ∷ []) ≡ false
append_full [] x = refl
append_full (y ∷ xs) x = refl

keep_minimal_full : (kept : List Text) (p : Text) → is_empty (keep_minimal kept p) ≡ false
unfolding keep_minimal
keep_minimal_full [] p = refl
keep_minimal_full (k ∷ kept) p = elim (Bool-cases (any (λ j. pattern_within p j) (k ∷ kept))) [
  | inl e ↦ rw (e, keep_minimal)
  | inr e ↦ rw (e, keep_minimal) (append_full (filter (λ j. not (pattern_within j p)) (k ∷ kept)) p)
]

minimal_from_full :
    (ps kept : List Text)
    → (is_empty kept ≡ false) ⊎ (is_empty ps ≡ false)
    → is_empty (minimal_from kept ps) ≡ false
unfolding minimal_from
minimal_from_full [] kept h = elim h [ inl a ↦ a | inr b ↦ cc b ]
minimal_from_full (p ∷ ps) kept h =
    minimal_from_full ps (keep_minimal kept p) (inl (keep_minimal_full kept p))

-- A scope with a pattern keeps one.
pub minimal_globs_full :
    (ps : List Text) → is_empty ps ≡ false → is_empty (minimal_globs ps) ≡ false
minimal_globs_full ps h = ap is_empty (minimal_globs-eq ps) ∙ minimal_from_full ps [] (inr h)

narrow_clean_left :
    (left right : List Text)
    → is_empty right ≡ true
    → is_empty left ≡ false
    → is_empty (narrow_clean left right) ≡ false
unfolding narrow_clean
narrow_clean_left left [] h k = k
narrow_clean_left left (o ∷ right) h k = cc h

clean-nil : is_empty (clean []) ≡ true
unfolding clean clean_from
clean-nil = refl

-- The intersection of two scopes of which one names a path names one.
pub narrow_globs_either :
    (inner outer : List Text)
    → All IsProper inner
    → All IsProper outer
    → (is_empty inner ≡ false) ⊎ (is_empty outer ≡ false)
    → is_empty (narrow_globs inner outer) ≡ false
narrow_globs_either inner [] h k full = elim full [
  | inl e ↦
      ap is_empty (narrow_globs-eq inner [])
      ∙ narrow_clean_left (clean inner) (clean []) clean-nil (clean_full inner h e)
  | inr e ↦ cc e
]
narrow_globs_either inner (o ∷ outer) h k full =
    narrow_globs_full inner (o ∷ outer) (clean_full (o ∷ outer) k refl)
