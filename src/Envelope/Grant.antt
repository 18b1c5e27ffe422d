-- ===== src/Envelope/Grant.antt =====
-- core/envelope.py: `widen_within`, the paths that a task is given within the owner's grant.
use supervisor_harness.Prelude.{
  ◌≡◌, refl, sym, ap, ◌∙◌, inl, inr, Bool, true, false, not, ◌&&◌, ◌||◌, List, [], ◌∷◌, arith,
  is_empty, Bool-cases,
}
use supervisor_harness.Text.{Text, mem, mem-append, mem-cons, text_eq, eq_of-text_eq}
use supervisor_harness.Paths.{matches_any}
use supervisor_harness.Paths.Sets.{globs_within}
use supervisor_harness.Envelope.{
  ScopeEnvelope, Ceiling, Widened, is_refused, widen_one, widen_each, widen_within, add_new,
  is_blank,
}
use supervisor_harness.Envelope.Forbidden.{add_new-mem, mem-one}

-- What the owner's grant allows: nothing that it or the plan forbids, and only what it covers.
abbrev pub permits : ScopeEnvelope → Ceiling → Text → Bool
permits envelope ceiling p =
    not (matches_any p ceiling.forbidden_paths)
    && not (matches_any p envelope.forbidden_paths)
    && (is_empty ceiling.paths || globs_within (p ∷ []) ceiling.paths)

not-is_refused :
    (e : ScopeEnvelope) (c : Ceiling) (p : Text) → not (is_refused e c p) ≡ permits e c p
unfolding is_refused
not-is_refused e c p = ground arith

module _ (e : ScopeEnvelope) (c : Ceiling) (p : Text) where
  widen_one-granted :
      (w : Widened) (q : Text)
      → mem p (widen_one e c w q).granted
        ≡ (mem p w.granted || (text_eq q p && not (is_refused e c p)))
  unfolding widen_one
  widen_one-granted w q =
      let longer = mem-append p w.granted (q ∷ []) ∙ ap (λ b. mem p w.granted || b) (mem-one p q) in
      elim (Bool-cases (text_eq q p)) [
        | inl h ↦ ground (arith, longer, ap (is_refused e c) (eq_of-text_eq q p h))
        | inr h ↦ ground (arith, longer)
      ]

  widen_one-refused :
      (w : Widened) (q : Text)
      → mem p (widen_one e c w q).refused ≡ (mem p w.refused || (text_eq q p && is_refused e c p))
  unfolding widen_one
  widen_one-refused w q =
      let longer = mem-append p w.refused (q ∷ []) ∙ ap (λ b. mem p w.refused || b) (mem-one p q) in
      elim (Bool-cases (text_eq q p)) [
        | inl h ↦ ground (arith, longer, ap (is_refused e c) (eq_of-text_eq q p h))
        | inr h ↦ ground (arith, longer)
      ]

  widen_each-granted :
      (w : Widened) (ps : List Text)
      → mem p (widen_each e c w ps).granted
        ≡ (mem p w.granted || (mem p ps && not (is_refused e c p)))
  unfolding widen_each
  widen_each-granted w [] = unfold mem in ground arith
  widen_each-granted w (q ∷ ps) =
      widen_each-granted (widen_one e c w q) ps
      ∙ (ground (arith, widen_one-granted w q, mem-cons p q ps))

  widen_each-refused :
      (w : Widened) (ps : List Text)
      → mem p (widen_each e c w ps).refused ≡ (mem p w.refused || (mem p ps && is_refused e c p))
  unfolding widen_each
  widen_each-refused w [] = unfold mem in ground arith
  widen_each-refused w (q ∷ ps) =
      widen_each-refused (widen_one e c w q) ps
      ∙ (ground (arith, widen_one-refused w q, mem-cons p q ps))

  -- The envelope gains nothing that was not granted, and loses nothing.
  widen_one-allowed :
      (w : Widened) (q : Text) → mem p w.allowed ≡ true → mem p (widen_one e c w q).allowed ≡ true
  unfolding widen_one
  widen_one-allowed w q h = ground (arith, mem-append p w.allowed (q ∷ []))

  widen_each-allowed :
      (w : Widened) (ps : List Text)
      → mem p w.allowed ≡ true
      → mem p (widen_each e c w ps).allowed ≡ true
  unfolding widen_each
  widen_each-allowed w [] h = h
  widen_each-allowed w (q ∷ ps) h =
      widen_each-allowed (widen_one e c w q) ps (widen_one-allowed w q h)

  widen_one-new :
      (w : Widened) (q : Text)
      → (mem p w.allowed ≡ true → (mem p e.paths || mem p w.granted) ≡ true)
      → mem p (widen_one e c w q).allowed ≡ true
      → (mem p e.paths || mem p (widen_one e c w q).granted) ≡ true
  unfolding widen_one
  widen_one-new w q inv h =
      ground (arith, mem-append p w.allowed (q ∷ []), mem-append p w.granted (q ∷ []), mem-one p q)

  widen_each-new :
      (w : Widened) (ps : List Text)
      → (mem p w.allowed ≡ true → (mem p e.paths || mem p w.granted) ≡ true)
      → mem p (widen_each e c w ps).allowed ≡ true
      → (mem p e.paths || mem p (widen_each e c w ps).granted) ≡ true
  unfolding widen_each
  widen_each-new w [] inv h = inv h
  widen_each-new w (q ∷ ps) inv h = widen_each-new (widen_one e c w q) ps (widen_one-new w q inv) h

absorbed : {a b : Bool} → (a ≡ true → b ≡ true) → (a || b) ≡ b
absorbed {a = true} h = sym (h refl)
absorbed {a = false} h = refl

-- Of the paths wanted that are not blank, exactly those are granted that the owner's grant covers and neither it nor
-- the plan forbids, and exactly the others are refused; the envelope keeps its paths and gains
-- only granted ones, and what it forbids, its source and its age stay.
pub widen_within-granted :
    (envelope : ScopeEnvelope) (ceiling : Ceiling) (wanted : List Text) (p : Text)
    → is_blank p ≡ false
    → let (widened, granted, refused) = widen_within envelope ceiling wanted in
      (mem p granted ≡ (mem p wanted && permits envelope ceiling p))
      × (mem p refused ≡ (mem p wanted && not (permits envelope ceiling p)))
      × ((mem p envelope.paths || mem p widened.paths) ≡ mem p widened.paths)
      × ((mem p widened.paths || (mem p envelope.paths || mem p granted))
          ≡ (mem p envelope.paths || mem p granted))
      × (widened ≡ record envelope { paths = widened.paths })
unfolding widen_within
widen_within-granted envelope ceiling wanted p h =
    let start : Widened = record { allowed = envelope.paths; granted = []; refused = [] } in
    let wants = add_new [] wanted in
    let counted = add_new-mem p [] wanted h in
    let permitted = not-is_refused envelope ceiling p in
    let nothing_yet : mem p [] ≡ false = unfold mem in refl in
    (
      widen_each-granted envelope ceiling p start wants
          ∙ (ground (arith, counted, permitted, nothing_yet)),
      widen_each-refused envelope ceiling p start wants
          ∙ (ground (arith, counted, permitted, nothing_yet)),
      absorbed (widen_each-allowed envelope ceiling p start wants),
      absorbed (widen_each-new envelope ceiling p start wants (λ k. ground arith)),
      refl,
    )
