-- ===== src/Text/Ops.antt =====
-- Python's `str`: equality, `startswith`, `endswith`, `strip`, `lstrip`, `rstrip`, `replace`.
use Prim.Native.Char.{code}
use Prim.Native.String.{String}
use supervisor_harness.Prelude.{
  ℕ, Bool, true, false, ◌&&◌, ◌||◌, Option, none, some, List, [], ◌∷◌, map, leb, ◌==◌,
  if◌then◌else◌,
}
use mathlib.Core.List.{reverse}
use mathlib.Core.Option

abbrev pub Text : Type 0
Text = List ℕ

abbrev pub codes : String → Text
codes String.[] = []
codes (String.◌∷◌ c s) = code c ∷ codes s

unfoldable pub text_eq : Text → Text → Bool
text_eq [] [] = true
text_eq [] (y ∷ ys) = false
text_eq (x ∷ xs) [] = false
text_eq (x ∷ xs) (y ∷ ys) = x == y && text_eq xs ys

-- `t.startswith(s)`
unfoldable pub starts_with : Text → Text → Bool
starts_with [] t = true
starts_with (x ∷ s) [] = false
starts_with (x ∷ s) (y ∷ t) = x == y && starts_with s t

-- `t[:-len(s)]` where `t.endswith(s)`
unfoldable pub remove_suffix : Text → Text → Option Text
unfolding text_eq
remove_suffix s [] = if text_eq [] s then some [] else none
remove_suffix s (c ∷ t) =
    if text_eq (c ∷ t) s then some [] else Option.map (λ b. c ∷ b) (remove_suffix s t)

-- `t.endswith(s)`
unfoldable pub ends_with : Text → Text → Bool
unfolding remove_suffix
ends_with s t = elim (remove_suffix s t) [ none ↦ false | some b ↦ true ]

-- `t[len(s):]`
unfoldable pub drop_prefix : Text → Text → Text
drop_prefix [] t = t
drop_prefix (x ∷ s) [] = []
drop_prefix (x ∷ s) (y ∷ t) = drop_prefix s t

-- `text in texts`
unfoldable pub mem : Text → List Text → Bool
unfolding text_eq
mem t [] = false
mem t (x ∷ xs) = text_eq x t || mem t xs

-- The characters that `str.isspace` accepts.
unfoldable pub is_space : ℕ → Bool
is_space c =
    leb 9 c && leb c 13
    || leb 28 c && leb c 32
    || c == 133
    || c == 160
    || c == 5760
    || leb 8192 c && leb c 8202
    || c == 8232
    || c == 8233
    || c == 8239
    || c == 8287
    || c == 12288

-- `t.lstrip(c)`, for the characters that a test accepts
unfoldable pub lstrip : (ℕ → Bool) → Text → Text
lstrip f [] = []
lstrip f (c ∷ t) = let rest = lstrip f t in if f c then rest else c ∷ t

unfoldable pub rstrip : (ℕ → Bool) → Text → Text
unfolding lstrip
rstrip f t = reverse (lstrip f (reverse t))

unfoldable pub strip : Text → Text
unfolding is_space rstrip
strip t = rstrip is_space (lstrip is_space t)

-- `t.replace(a, b)` for two characters
unfoldable pub replace : ℕ → ℕ → Text → Text
replace a b t = map (λ c. if c == a then b else c) t
