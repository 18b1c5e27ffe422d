-- ===== src/Envelope/Forbidden.antt =====
-- core/envelope.py: the forbidden paths accumulate.
use supervisor_harness.Prelude.{
  ◌≡◌, sym, ap, ◌∙◌, inl, inr, Bool, false, not, ◌&&◌, ◌||◌, Option, none, some, List, [], ◌∷◌,
  ◌++◌, arith, any, filter, is_empty, Bool-cases, if◌then◌else◌,
}
use supervisor_harness.Text.{
  Text, mem, mem-append, mem-filter, mem-of_empty, mem-cons, text_eq, eq_of-text_eq,
}
use supervisor_harness.Envelope.{
  Scope, Ceiling, ScopeEnvelope, Attenuated, narrow_to, inherit, added_by, attenuate_from,
  attenuate, add_new, base_of, establish, is_blank,
}

-- The ceiling forbids the path by that pattern.
abbrev pub forbids : Text → Option Ceiling → Bool
forbids p none = false
forbids p (some c) = mem p c.forbidden_paths

added_by-mem :
    (p : Text) (c : Ceiling) (forbidden : List Text)
    → mem p (added_by c forbidden)
      ≡ ((not (is_empty p) && not (mem p forbidden)) && mem p c.forbidden_paths)
unfolding added_by
added_by-mem p c forbidden =
    mem-filter (λ q. not (is_empty q) && not (mem q forbidden)) p c.forbidden_paths

inherit-mem :
    (p : Text) (c : Ceiling) (a : Attenuated)
    → is_empty p ≡ false
    → mem p (inherit c a).forbidden ≡ (mem p a.forbidden || mem p c.forbidden_paths)
unfolding inherit
inherit-mem p c a h =
    let added = added_by c a.forbidden in
    let counted = added_by-mem p c a.forbidden in
    elim (Bool-cases (is_empty added)) [
      | inl e ↦ rw (e, inherit) (ground (arith, counted, mem-of_empty p added e))
      | inr e ↦ rw (e, inherit) (mem-append p a.forbidden added ∙ (ground (arith, counted)))
    ]

narrow_to-forbidden : (c : Ceiling) (a : Attenuated) → (narrow_to c a).forbidden ≡ a.forbidden
unfolding narrow_to
narrow_to-forbidden c a = ground arith

attenuate_from-mem :
    (p : Text) (a : Attenuated) (ceilings : List (Option Ceiling))
    → is_empty p ≡ false
    → mem p (attenuate_from a ceilings).forbidden ≡ (mem p a.forbidden || any (forbids p) ceilings)
unfolding attenuate_from
attenuate_from-mem p a [] h = ground arith
attenuate_from-mem p a (none ∷ rest) h = attenuate_from-mem p a rest h
attenuate_from-mem p a (some c ∷ rest) h =
    attenuate_from-mem p (inherit c (narrow_to c a)) rest h
    ∙ (ground (arith, inherit-mem p c (narrow_to c a) h, ap (mem p) (narrow_to-forbidden c a)))

-- An attenuated scope forbids a pattern that is not empty exactly if it did before or a ceiling above
-- it does.
pub attenuate-forbidden :
    (p : Text) (scope : Scope) (ceilings : List (Option Ceiling))
    → is_empty p ≡ false
    → mem p (attenuate scope ceilings).0.forbidden_paths
      ≡ (mem p scope.forbidden_paths || any (forbids p) ceilings)
unfolding attenuate
attenuate-forbidden p scope ceilings h =
    attenuate_from-mem p
      (record { paths = scope.paths; forbidden = scope.forbidden_paths; notes = [] }) ceilings h

pub mem-one : (p q : Text) → mem p (q ∷ []) ≡ text_eq q p
mem-one p q = unfold mem in ground arith

pub or_assoc : (a b c : Bool) → ((a || b) || c) ≡ (a || (b || c))
or_assoc a b c = ground arith

add_one-mem :
    (p q : Text) (forbidden : List Text)
    → is_blank p ≡ false
    → mem p (if not (is_blank q) && not (mem q forbidden) then forbidden ++ q ∷ [] else forbidden)
      ≡ (mem p forbidden || text_eq q p)
add_one-mem p q forbidden h =
    let longer = mem-append p forbidden (q ∷ []) ∙ ap (λ b. mem p forbidden || b) (mem-one p q) in
    elim (Bool-cases (text_eq q p)) [
      | inl e ↦
          let same = eq_of-text_eq q p e in
          ground (arith, longer, ap is_blank same, ap (λ t. mem t forbidden) same)
      | inr e ↦ ground (arith, longer)
    ]

pub add_new-mem :
    (p : Text) (forbidden proposed : List Text)
    → is_blank p ≡ false
    → mem p (add_new forbidden proposed) ≡ (mem p forbidden || mem p proposed)
unfolding add_new
add_new-mem p forbidden [] h = unfold mem in ground arith
add_new-mem p forbidden (q ∷ rest) h =
    add_new-mem p
      (if not (is_blank q) && not (mem q forbidden) then forbidden ++ q ∷ [] else forbidden) rest h
    ∙ ap (λ b. b || mem p rest) (add_one-mem p q forbidden h)
    ∙ or_assoc (mem p forbidden) (text_eq q p) (mem p rest)
    ∙ ap (λ b. mem p forbidden || b) (sym (mem-cons p q rest))

-- The run's envelope forbids a pattern that is not blank exactly if the configured one does or the
-- plan adds it, whether or not the plan proposes paths.
pub establish-forbidden :
    (p now : Text) (configured : Option ScopeEnvelope) (paths forbidden : List Text) (source : Text)
    → is_blank p ≡ false
    → mem p (establish now configured paths forbidden source).0.forbidden_paths
      ≡ (mem p (base_of now configured).forbidden_paths || mem p forbidden)
unfolding establish
establish-forbidden p now configured paths forbidden source h =
    let counted = add_new-mem p (base_of now configured).forbidden_paths forbidden h in
    elim (Bool-cases (is_empty (filter (λ q. not (is_blank q)) paths))) [
      | inl e ↦ rw (e, establish) counted
      | inr e ↦ rw (e, establish) counted
    ]
