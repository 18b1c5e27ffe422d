-- ===== src/Plan/Ledger/Grounded.antt =====
-- core/requirements.py, `build_ledger`: what is held stays, and what is added was read.
use supervisor_harness.Prelude.{
  ℕ, suc, ◌+◌, ◌≤◌, ◌≡◌, refl, sym, ap, ◌∙◌, subst, ◌⊎◌, inl, inr, false, Option, List, [], ◌∷◌,
  ◌++◌, length, length-append, append-nil, append_assoc, map, leb, All, arith, Bool-cases,
}
use supervisor_harness.Text.{Text}
use supervisor_harness.Plan.Tasks.{Requirement}
use supervisor_harness.Plan.Ledger.Flat.{flat}
use supervisor_harness.Plan.Ledger.{
  Quoted, LedgerNote, chosen, is_held, required, add_each, build_ledger,
}
use supervisor_harness.Plan.Ledger.Standing.{StandsIn, chosen-StandsIn}

chosen-cases :
    (x : LedgerNote ⊎ (Text × Text))
    → ((n : LedgerNote) × (x ≡ inl n)) ⊎ ((p : Text × Text) × (x ≡ inr p))
chosen-cases (inl n) = inl (n, refl)
chosen-cases (inr p) = inr (p, refl)

module _ (casefold : Text → Text) (read_source : Text → Option Text)
    (line_range : Text → Option (ℕ × Option ℕ)) (request : Text) where
  abbrev pub IsStanding : Requirement → Type 0
  IsStanding r = StandsIn casefold read_source line_range request r.lines r.quote r.source

  module _ (decimal : ℕ → Text) (found_by : Text) where
    -- The ids go on from `R` and the number after `n`.
    abbrev pub AreNumbered : ℕ → List Requirement → Type 0
    AreNumbered n [] = Unit
    AreNumbered n (r ∷ rs) = (Requirement.id r ≡ b'R' ∷ decimal (n + 1)) × AreNumbered (suc n) rs

    -- What was added to a ledger.
    pub record Grown (ledger result : List Requirement) : Type 0 where
      pub added : List Requirement
      pub whole : result ≡ ledger ++ added
      pub standing : All IsStanding added
      pub numbered : AreNumbered (length ledger) added
      pub most : (length added ≡ 0) ⊎ (length result ≤ 60)

    Grown-refl : (ledger : List Requirement) → Grown ledger ledger
    Grown-refl ledger = record {
      added = [];
      whole = sym (append-nil ledger);
      standing = tt;
      numbered = tt;
      most = inl refl;
    }

    -- One more requirement, of a ledger that is not full.
    Grown-one :
        (ledger result : List Requirement) (r : Requirement)
        → IsStanding r
        → r.id ≡ b'R' ∷ decimal (length ledger + 1)
        → leb 60 (length ledger) ≡ false
        → Grown (ledger ++ r ∷ []) result
        → Grown ledger result
    Grown-one ledger result r s i h g =
        let longer : length (ledger ++ r ∷ []) ≡ suc (length ledger) =
          omega (arith, length-append {0} ledger (r ∷ [])) in
        record {
          added = r ∷ g.added;
          whole = g.whole ∙ append_assoc ledger (r ∷ []) g.added;
          standing = (s, g.standing);
          numbered = (i, subst (λ z. AreNumbered z g.added) longer g.numbered);
          most = inr (elim g.most [ inl z ↦ room z | inr le ↦ le ]);
        }
      where
        room : length g.added ≡ 0 → length result ≤ 60
        room z =
            let shorter : length ledger ≤ 59 = ground (arith, h) in
            omega (
              arith,
              ap length g.whole,
              length-append {0} (ledger ++ r ∷ []) g.added,
              length-append {0} ledger (r ∷ []),
              z,
              shorter,
            )

    abbrev grow :
        List Quoted
        → List Requirement
        → List LedgerNote
        → List (Text × Text)
        → List Requirement × List LedgerNote
    grow = add_each casefold read_source line_range decimal request found_by

    add_each-Grown :
        (items : List Quoted) (ledger : List Requirement) (notes : List LedgerNote)
        (seen : List (Text × Text))
        → Grown ledger (grow items ledger notes seen).0
    unfolding add_each
    add_each-Grown [] ledger notes seen = Grown-refl ledger
    add_each-Grown (item ∷ items) ledger notes seen =
        elim (chosen-cases (chosen casefold read_source line_range request item)) [
          | inl (n, e) ↦ rw (add_each, e) (add_each-Grown items ledger (notes ++ n ∷ []) seen)
          | inr (kept, e) ↦
              elim (Bool-cases
                (is_held casefold read_source line_range seen (flat casefold kept.0) kept.1)) [
                  | inl y ↦ rw (add_each, e, y) (add_each-Grown items ledger notes seen)
                  | inr y ↦ elim (Bool-cases (leb 60 (length ledger))) [
                    | inl full ↦ rw (add_each, e, y, full) (Grown-refl ledger)
                    | inr room ↦
                        let r =
                          required casefold read_source line_range decimal request found_by
                            (length ledger) item kept in
                        let more =
                          add_each-Grown items (ledger ++ r ∷ []) notes
                            (seen ++ (flat casefold kept.0, kept.1) ∷ []) in
                        rw (add_each, e, y, room)
                          (Grown-one ledger _ r
                            (chosen-StandsIn casefold read_source line_range request item kept e)
                            refl room more)
                  ]
                ]
        ]

    -- A reading leaves what the ledger holds in its place and adds to its end. What it adds stands in
    -- its source. With lines given, the source is a document, the lines are a range of the document's
    -- lines, counted from 1, of 40 at most, and the quote is what they hold, 12 characters or more as
    -- `_flat` reads it. Else the pieces of the quote between its ellipses stand one after the other,
    -- as `_flat` reads both, in the request or in the text of the document, and one of the pieces has
    -- 12 characters or more. The ids count on from the last held, and where anything is added the
    -- ledger has 60 requirements at most.
    pub build_ledger-Grown :
        (held : List Requirement) (items : List Quoted)
        → Grown held
            (build_ledger casefold read_source line_range decimal request found_by held items).0
    unfolding build_ledger
    build_ledger-Grown held items =
        add_each-Grown items held []
          (map (λ r. (flat casefold (Requirement.quote r), Requirement.source r)) held)
