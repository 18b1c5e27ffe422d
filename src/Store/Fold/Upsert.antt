-- ===== src/Store/Fold/Upsert.antt =====
-- store/events.py: `_upsert` and the assignment to a key of a dict, done twice.
use supervisor_harness.Prelude.{
  ◌≡◌, ◌≢◌, refl, sym, ap, ◌∙◌, false, none, some, List, [], ◌∷◌, ◌++◌, is_empty, Bool-cases,
  Option-cases, inl, inr, arith,
}
use supervisor_harness.Text.{Text, text_eq, text_eq_refl}
use supervisor_harness.Store.Fold.Dict.{Dict, get, put, replace_first, upsert}

none≢some {κ} : {A : Type κ} {a : A} → none ≢ some a
none≢some h = cc

module _ {ℓ} {A : Type ℓ} (id_of : A → Text) where
  replace_first_self :
      (new : A) (xs ys : List A)
      → replace_first id_of (id_of new) new xs ≡ some ys
      → replace_first id_of (id_of new) new ys ≡ some ys
  unfolding replace_first
  replace_first_self new [] ys h = ground arith
  replace_first_self new (x ∷ xs) ys h = elim (Bool-cases (text_eq (id_of x) (id_of new))) [
    | inl y ↦
        let first : some (new ∷ xs) ≡ some ys = rw (y, replace_first) at h in
        ground (arith, text_eq_refl (id_of new))
    | inr n ↦ elim (Option-cases (replace_first id_of (id_of new) new xs)) [
      | inl e ↦ absurd (none≢some (rw (n, e, replace_first) at h))
      | inr (zs, e) ↦
          let found : some (x ∷ zs) ≡ some ys = rw (n, e, replace_first) at h in
          let later = replace_first_self new xs zs e in
          let same : x ∷ zs ≡ ys = cc found in
          ap (replace_first id_of (id_of new) new) (sym same) ∙ rw (n, later, replace_first) found
    ]
  ]

  replace_first-snoc :
      (new : A) (xs : List A)
      → replace_first id_of (id_of new) new xs ≡ none
      → replace_first id_of (id_of new) new (xs ++ new ∷ []) ≡ some (xs ++ new ∷ [])
  unfolding replace_first
  replace_first-snoc new [] h = rw (text_eq_refl (id_of new)) refl
  replace_first-snoc new (x ∷ xs) h = ground (arith, replace_first-snoc new xs)

  pub upsert_twice :
      (xs : List A) (new : A)
      → is_empty (id_of new) ≡ false
      → upsert id_of ((upsert id_of xs new).0) new ≡ ((upsert id_of xs new).0, false)
  unfolding upsert
  upsert_twice xs new h = elim (Option-cases (replace_first id_of (id_of new) new xs)) [
    | inl e ↦ rw (h, e, upsert) (rw (replace_first-snoc new xs e) refl)
    | inr (ys, e) ↦ rw (h, e, upsert) (rw (replace_first_self new xs ys e) refl)
  ]

module _ {ℓ} {A : Type ℓ} where
  pub get-put : (key : Text) (a : A) (d : Dict A) → get key (put key a d) ≡ some a
  unfolding get put
  get-put key a [] = rw (text_eq_refl key) refl
  get-put key a ((k, b) ∷ d) = ground (arith, get-put key a d)

  pub put_twice : (key : Text) (a : A) (d : Dict A) → put key a (put key a d) ≡ put key a d
  unfolding put
  put_twice key a [] = rw (text_eq_refl key) refl
  put_twice key a ((k, b) ∷ d) = ground (arith, put_twice key a d)
