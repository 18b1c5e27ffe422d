-- ===== src/Plan/Ledger/Standing.antt =====
-- core/requirements.py, the quote that `build_ledger` keeps of an item, and where it stands.
use supervisor_harness.Prelude.{
  ℕ, ◌≡◌, refl, sym, subst, ◌⊎◌, inl, inr, true, false, not, ◌&&◌, Option, none, some, List, [],
  ◌∷◌, is_empty, arith, Bool-cases, Any, Option-cases,
}
use supervisor_harness.Text.{Text, codes, text_eq, strip}
use supervisor_harness.Plan.Ledger.Flat.{splitlines}
use supervisor_harness.Plan.Ledger.Found.{
  IsQuoted, grounded-IsQuoted, IsRange, lines_between-IsRange, mem-Any, mem-none, refused≢body,
}
use supervisor_harness.Plan.Ledger.{
  Quoted, Uncited, Citation, refused, body, LedgerNote, grounded, source_text, cited, stands,
  chosen, is_request, last_of,
}

Citation-cases :
    (c : Citation) → ((why : Uncited) × (c ≡ refused why)) ⊎ ((b : Text) × (c ≡ body b))
Citation-cases (refused why) = inl (why, refl)
Citation-cases (body b) = inr (b, refl)

kept_inj : (p q : Text × Text) → ◌≡◌ {A = LedgerNote ⊎ (Text × Text)} (inr p) (inr q) → p ≡ q
kept_inj p q h = cc h

some_inj : (a b : Text) → some a ≡ some b → a ≡ b
some_inj a b h = cc h

note≢kept :
    (n : LedgerNote) (p : Text × Text) → ◌≡◌ {A = LedgerNote ⊎ (Text × Text)} (inl n) (inr p) → ⊥
note≢kept n p h = cc h

module _ (casefold : Text → Text) (read_source : Text → Option Text)
    (line_range : Text → Option (ℕ × Option ℕ)) (request : Text) where
  -- The names that a source may have which is the request.
  abbrev pub request_names : List Text
  request_names = [] ∷ codes "request" ∷ codes "the request" ∷ codes "prompt" ∷ []

  abbrev pub NamesRequest : Text → Type 0
  NamesRequest source = Any (λ name. name ≡ casefold (strip source)) request_names

  -- The text of a source: the request, or that of a document.
  abbrev pub IsTextOf : Text → Text → Type 0
  IsTextOf source text =
      (NamesRequest source × (text ≡ request))
      ⊎ ((¬ NamesRequest source) × (read_source (strip source) ≡ some text))

  -- The source is a document, and the quote is the range of its lines that `lines` gives.
  pub record Cites (lines quote source : Text) : Type 0 where
    pub is_document : ¬ NamesRequest source
    pub text : Text
    pub loaded : read_source (strip source) ≡ some text
    pub first : ℕ
    pub last : Option ℕ
    pub given : line_range lines ≡ some (first, last)
    pub range :
        IsRange casefold
          (splitlines text)
          first
          (last_of casefold read_source line_range first last)
          quote

  -- A quote of a source stands where the source has it. With lines cited, it is what those lines of the
  -- document hold; else its pieces between ellipses stand in order in the text that the source names,
  -- or, where the source is the request, in the request.
  abbrev pub StandsIn : Text → Text → Text → Type 0
  StandsIn lines quote source =
      ((is_empty lines ≡ false) × Cites lines quote source)
      ⊎ ((is_empty lines ≡ true)
          × (((text : Text) × IsTextOf source text × IsQuoted casefold quote text)
              ⊎ ((source ≡ codes "request") × IsQuoted casefold quote request)))

  is_request-true : (source : Text) → is_request casefold source ≡ true → NamesRequest source
  unfolding is_request
  is_request-true source h = mem-Any (casefold (strip source)) request_names h

  is_request-false : (source : Text) → is_request casefold source ≡ false → ¬ NamesRequest source
  unfolding is_request
  is_request-false source h = mem-none (casefold (strip source)) request_names h

  source_text-IsTextOf :
      (source text : Text)
      → source_text casefold read_source line_range request source ≡ some text
      → IsTextOf source text
  unfolding source_text
  source_text-IsTextOf source text h = elim (Bool-cases (is_request casefold source)) [
    | inl y ↦
        let same : some request ≡ some text = rw (source_text, y) at h in
        inl (is_request-true source y, sym (some_inj request text same))
    | inr n ↦ inr (is_request-false source n, rw (source_text, n) at h)
  ]

  -- A citation that is not refused.
  cited-Cites :
      (lines quote source : Text)
      → cited casefold read_source line_range lines source
          (source_text casefold read_source line_range request source)
        ≡ body quote
      → Cites lines quote source
  unfolding cited source_text
  cited-Cites lines quote source h = elim (Bool-cases (is_request casefold source)) [
    | inl y ↦ absurd (refused≢body _ quote (rw (cited, y) at h))
    | inr n ↦ elim (Option-cases (read_source (strip source))) [
      | inl e ↦ absurd (refused≢body _ quote (rw (cited, source_text, n, e) at h))
      | inr (text, e) ↦ elim (Option-cases (line_range lines)) [
        | inl f ↦ absurd (refused≢body _ quote (rw (cited, source_text, n, e, f) at h))
        | inr (r, f) ↦ record {
          is_document = is_request-false source n;
          text = text;
          loaded = e;
          first = r.0;
          last = r.1;
          given = f;
          range =
              lines_between-IsRange casefold read_source line_range (splitlines text) r.0
                (last_of casefold read_source line_range r.0 r.1) quote
                (rw (cited, source_text, n, e, f) at h);
        }
      ]
    ]
  ]

  abbrev Kept : Quoted → Text × Text → Type 0
  Kept item kept = chosen casefold read_source line_range request item ≡ inr kept

  -- The lines that are cited.
  chosen-cited :
      (item : Quoted) (kept : Text × Text)
      → is_empty item.lines ≡ false
      → Kept item kept
      → StandsIn item.lines kept.0 kept.1
  unfolding chosen
  chosen-cited item kept n h =
      let found =
        cited casefold read_source line_range item.lines item.source
          (source_text casefold read_source line_range request item.source) in
      elim (Citation-cases found) [
        | inl (why, e) ↦ absurd (note≢kept _ kept (rw (chosen, n, e) at h))
        | inr (b, e) ↦
            subst (λ z. StandsIn item.lines z.0 z.1)
              (kept_inj (b, item.source) kept (rw (chosen, n, e) at h))
              (inl (n, cited-Cites item.lines b item.source e))
      ]

  -- The request, where the source does not hold the quote.
  chosen-request :
      (item : Quoted) (kept : Text × Text)
      → is_empty item.lines ≡ true
      → stands casefold read_source line_range item.quote
          (source_text casefold read_source line_range request item.source)
        ≡ false
      → Kept item kept
      → StandsIn item.lines kept.0 kept.1
  unfolding chosen
  chosen-request item kept y g h =
      elim (Bool-cases
        (not (text_eq item.source (codes "request")) && grounded casefold item.quote request)) [
          | inl t ↦
              let holds : grounded casefold item.quote request ≡ true = ground arith in
              subst (λ z. StandsIn item.lines z.0 z.1)
                (kept_inj (item.quote, codes "request") kept (rw (chosen, y, g, t) at h))
                (inr (y, inr (refl, grounded-IsQuoted casefold item.quote request holds)))
          | inr f ↦ absurd (note≢kept _ kept (rw (chosen, y, g, f) at h))
        ]

  stands-some :
      (quote : Text) (text : Option Text)
      → stands casefold read_source line_range quote text ≡ true
      → (t : Text) × (text ≡ some t) × (grounded casefold quote t ≡ true)
  stands-some quote none h = cc h
  stands-some quote (some t) h = (t, refl, h)

  -- What is kept stands in its source.
  pub chosen-StandsIn :
      (item : Quoted) (kept : Text × Text) → Kept item kept → StandsIn item.lines kept.0 kept.1
  unfolding chosen
  chosen-StandsIn item kept h =
      let text = source_text casefold read_source line_range request item.source in
      elim (Bool-cases (is_empty item.lines)) [
        | inr n ↦ chosen-cited item kept n h
        | inl y ↦ elim (Bool-cases (stands casefold read_source line_range item.quote text)) [
          | inr g ↦ chosen-request item kept y g h
          | inl g ↦
              let (t, e, holds) = stands-some item.quote text g in
              subst (λ z. StandsIn item.lines z.0 z.1)
                (kept_inj (item.quote, item.source) kept (rw (chosen, y, g) at h))
                (inr (
                  y,
                  inl (
                    t,
                    source_text-IsTextOf item.source t e,
                    grounded-IsQuoted casefold item.quote t holds,
                  ),
                ))
        ]
      ]
