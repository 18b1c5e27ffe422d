-- ===== src/Store/Fold/Dict.antt =====
-- Python's `dict` with text keys in insertion order, and the list helpers of store/events.py.
use supervisor_harness.Prelude.{
  Bool, true, false, Option, none, some, List, [], ◌∷◌, ◌++◌, is_empty, if◌then◌else◌,
}
use supervisor_harness.Text.{Text, text_eq, mem}

abbrev pub Dict {ℓ} : Type ℓ → Type ℓ
Dict A = List (Text × A)

module _ {ℓ} {A : Type ℓ} where
  -- `d.get(key)`
  unfoldable pub get : Text → Dict A → Option A
  unfolding text_eq
  get key [] = none
  get key ((k, a) ∷ d) = if text_eq k key then some a else get key d

  -- `d[key] = a`
  unfoldable pub put : Text → A → Dict A → Dict A
  unfolding text_eq
  put key a [] = (key, a) ∷ []
  put key a ((k, b) ∷ d) =
      let rest = put key a d in if text_eq k key then (k, a) ∷ d else (k, b) ∷ rest

  -- `d.setdefault(key, a)`
  unfoldable pub set_default : Text → A → Dict A → Dict A
  unfolding get
  set_default key a d = elim (get key d) [ none ↦ d ++ (key, a) ∷ [] | some b ↦ d ]

  module _ (id_of : A → Text) where
    -- The first item of that id replaced by `new`, if there is one.
    unfoldable pub replace_first : Text → A → List A → Option (List A)
    unfolding text_eq
    replace_first ident new [] = none
    replace_first ident new (x ∷ xs) =
        let rest = replace_first ident new xs in
        if text_eq (id_of x) ident
        then some (new ∷ xs)
        else elim rest [ none ↦ none | some ys ↦ some (x ∷ ys) ]

    -- The list, and whether the item is new.
    unfoldable pub upsert : List A → A → List A × Bool
    unfolding replace_first
    upsert items new =
        if is_empty (id_of new)
        then (items ++ new ∷ [], true)
        else elim (replace_first (id_of new) new items) [
          | none ↦ (items ++ new ∷ [], true)
          | some replaced ↦ (replaced, false)
        ]

unfoldable pub remember : List Text → Text → List Text
unfolding mem
remember bucket entry = if mem entry bucket then bucket else bucket ++ entry ∷ []
