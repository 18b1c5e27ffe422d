-- ===== src/Text/Laws.antt =====
-- Laws of the tests on texts.
use mathlib.Core.Bool.{true≢false}
use mathlib.Core.List.{reverse, reverse-append, reverse-reverse}
use supervisor_harness.Prelude.{
  ℕ, ◌≡◌, refl, sym, ap, ◌∙◌, length, length-append, false, none, Bool-cases, ◌↔◌, ◌⊎◌, inl, inr,
  true, some, [], ◌∷◌, ◌++◌, arith, Option-cases,
}
use supervisor_harness.Text.Ops.{
  Text, text_eq, starts_with, drop_prefix, remove_suffix, is_space, lstrip, rstrip, strip,
}

pub text_eq_refl : (s : Text) → text_eq s s ≡ true
unfolding text_eq
text_eq_refl [] = refl
text_eq_refl (x ∷ s) = ground (arith, text_eq_refl s)

pub eq_of-text_eq : (s t : Text) → text_eq s t ≡ true → s ≡ t
unfolding text_eq
eq_of-text_eq [] [] h = refl
eq_of-text_eq [] (y ∷ t) h = cc
eq_of-text_eq (x ∷ s) [] h = cc
eq_of-text_eq (x ∷ s) (y ∷ t) h = ground (arith, eq_of-text_eq s t)

pub text_eq_iff : (s t : Text) → (text_eq s t ≡ true) ↔ (s ≡ t)
text_eq_iff s t = (eq_of-text_eq s t, λ e. subst_eq s t e)
  where
    subst_eq : (s t : Text) → s ≡ t → text_eq s t ≡ true
    subst_eq s t e = rw (← e) (text_eq_refl s)

pub text_eq_sym : (s t : Text) → text_eq s t ≡ text_eq t s
unfolding text_eq
text_eq_sym [] [] = refl
text_eq_sym [] (y ∷ t) = refl
text_eq_sym (x ∷ s) [] = refl
text_eq_sym (x ∷ s) (y ∷ t) = ground (arith, text_eq_sym s t)

pub starts_with_refl : (s : Text) → starts_with s s ≡ true
unfolding starts_with
starts_with_refl [] = refl
starts_with_refl (x ∷ s) = ground (arith, starts_with_refl s)

pub starts_with-append : (s t : Text) → starts_with s (s ++ t) ≡ true
unfolding starts_with
starts_with-append [] t = refl
starts_with-append (x ∷ s) t = ground (arith, starts_with-append s t)

-- A text is its prefix and the rest.
pub drop_prefix_lem : (p t : Text) → starts_with p t ≡ true → t ≡ p ++ drop_prefix p t
unfolding starts_with drop_prefix
drop_prefix_lem [] t h = refl
drop_prefix_lem (x ∷ p) [] h = cc h
drop_prefix_lem (x ∷ p) (y ∷ t) h = ground (arith, drop_prefix_lem p t)

pub starts_with_trans :
    (a b c : Text) → starts_with a b ≡ true → starts_with b c ≡ true → starts_with a c ≡ true
unfolding starts_with
starts_with_trans [] b c h k = refl
starts_with_trans (x ∷ a) [] c h k = cc
starts_with_trans (x ∷ a) (y ∷ b) [] h k = cc
starts_with_trans (x ∷ a) (y ∷ b) (z ∷ c) h k = ground (arith, starts_with_trans a b c)

pub starts_with-cancel : (s a b : Text) → starts_with (s ++ a) (s ++ b) ≡ starts_with a b
unfolding starts_with
starts_with-cancel [] a b = refl
starts_with-cancel (x ∷ s) a b = ground (arith, starts_with-cancel s a b)

-- A prefix that ends in `c`, of a text that ends in `c`, is all of it or a prefix of the rest.
pub starts_with-snoc :
    (s t : Text) (c : ℕ)
    → starts_with (s ++ c ∷ []) (t ++ c ∷ []) ≡ true
    → (s ≡ t) ⊎ (starts_with (s ++ c ∷ []) t ≡ true)
unfolding starts_with
starts_with-snoc [] [] c h = inl refl
starts_with-snoc [] (y ∷ t) c h = inr (ground arith)
starts_with-snoc (x ∷ []) [] c h = ground arith
starts_with-snoc (x ∷ y ∷ s) [] c h = ground arith
starts_with-snoc (x ∷ s) (y ∷ t) c h = ground (arith, starts_with-snoc s t c)

pub remove_suffix-append : (s t b : Text) → remove_suffix s t ≡ some b → t ≡ b ++ s
unfolding remove_suffix
remove_suffix-append s [] b h = ground (arith, text_eq_iff [] s)
remove_suffix-append s (c ∷ t) b h = elim (Option-cases (remove_suffix s t)) [
  | inl e ↦ ground (arith, e, text_eq_iff (c ∷ t) s)
  | inr (b', e) ↦ ground (arith, e, text_eq_iff (c ∷ t) s, remove_suffix-append s t b')
]

-- A text that ends otherwise has no such suffix; the ends are read backwards.
pub remove_suffix-none :
    (s b e : Text)
    → starts_with (reverse s) (reverse e ++ reverse b) ≡ false
    → remove_suffix s (b ++ e) ≡ none
remove_suffix-none s b e h = elim (Option-cases (remove_suffix s (b ++ e))) [
  | inl none_found ↦ none_found
  | inr (b', found) ↦
      let same : b ++ e ≡ b' ++ s = remove_suffix-append s (b ++ e) b' found in
      let turned : reverse e ++ reverse b ≡ reverse s ++ reverse b' =
        sym (reverse-append b e) ∙ ap reverse same ∙ reverse-append b' s in
      absurd (true≢false (sym (starts_with-append (reverse s) (reverse b')) ∙ (rw (← turned) h)))
]

text_eq-longer : (x : ℕ) (b s : Text) → text_eq (x ∷ b ++ s) s ≡ false
text_eq-longer x b s = elim (Bool-cases (text_eq (x ∷ b ++ s) s)) [
  | inl e ↦
      absurd (omega (arith, ap length (eq_of-text_eq (x ∷ b ++ s) s e), length-append {0} b s))
  | inr e ↦ e
]

pub remove_suffix_self : (s b : Text) → remove_suffix s (b ++ s) ≡ some b
unfolding remove_suffix
remove_suffix_self [] [] = refl
remove_suffix_self (c ∷ s) [] = rw (text_eq_refl (c ∷ s))
remove_suffix_self s (x ∷ b) = rw (text_eq-longer x b s, remove_suffix_self s b)

pub text_eq-cancel : (b s t : Text) → text_eq (b ++ s) (b ++ t) ≡ text_eq s t
unfolding text_eq
text_eq-cancel [] s t = refl
text_eq-cancel (x ∷ b) s t = ground (arith, text_eq-cancel b s t)

-- Of two prefixes of one text, one is a prefix of the other.
pub starts_with-comparable :
    (a b t : Text)
    → starts_with a t ≡ true
    → starts_with b t ≡ true
    → (starts_with a b ≡ true) ⊎ (starts_with b a ≡ true)
unfolding starts_with
starts_with-comparable [] b t h k = inl refl
starts_with-comparable (x ∷ a) [] t h k = inr refl
starts_with-comparable (x ∷ a) (y ∷ b) [] h k = cc
starts_with-comparable (x ∷ a) (y ∷ b) (z ∷ t) h k = ground (arith, starts_with-comparable a b t)

-- A text between two characters that are no space is stripped of nothing.
pub strip_closed :
    (c d : ℕ) (t : Text)
    → is_space c ≡ false
    → is_space d ≡ false
    → strip (c ∷ (t ++ d ∷ [])) ≡ c ∷ (t ++ d ∷ [])
unfolding strip rstrip lstrip
strip_closed c d t h k =
    ap (rstrip is_space) (lstrip_closed c (t ++ d ∷ []) h)
    ∙ ap (λ z. reverse (lstrip is_space z)) (reverse-append (c ∷ t) (d ∷ []))
    ∙ ap reverse (lstrip_closed d (reverse (c ∷ t)) k)
    ∙ sym (ap reverse (reverse-append (c ∷ t) (d ∷ [])))
    ∙ reverse-reverse (c ∷ (t ++ d ∷ []))
  where
    lstrip_closed : (c : ℕ) (t : Text) → is_space c ≡ false → lstrip is_space (c ∷ t) ≡ c ∷ t
    lstrip_closed c t h = rw h refl
