-- ===== src/Plan/Ledger.antt =====
-- core/requirements.py, what a reading adds to the ledger: `_flat`, `grounded`, `_source_text`, `cited`
-- and `build_ledger`.
pub mod Flat
pub mod Found
pub mod Standing
pub mod Grounded
mod Examples
use supervisor_harness.Prelude.{
  ℕ, zero, suc, ◌+◌, ◌-◌, Bool, true, false, not, ◌&&◌, ◌||◌, ◌⊎◌, inl, inr, Option, none, some,
  List, [], ◌∷◌, ◌++◌, map, filter, any, length, is_empty, leb, drop, ◌==◌, if◌then◌else◌,
}
use supervisor_harness.Text.{Text, codes, text_eq, strip, mem}
use supervisor_harness.Plan.Tasks.{Requirement}
use supervisor_harness.Plan.Ledger.Flat.{
  flat, pieces, is_longer, find_in_order, contains, splitlines, take_lines,
}
use supervisor_harness.Plan.Criteria.{join}

-- An item of `parse_quoted`.
pub record Quoted : Type 0 where
  pub quote : Text
  pub source : Text
  pub lines : Text
  pub whole : Bool
  pub checked_by : Text

-- Why lines are not cited.
pub data Uncited : Type 0 where
  of_request no_document no_range too_little : Uncited
  outside : ℕ → ℕ → ℕ → Uncited
  too_many : ℕ → ℕ → Uncited

pub data Citation : Type 0 where
  refused : Uncited → Citation
  body : Text → Citation

-- The notes of `build_ledger`.
pub data LedgerNote : Type 0 where
  not_cited : Text → Text → Uncited → LedgerNote
  not_word_for_word : Text → Text → LedgerNote
  past_the_most : Text → LedgerNote

-- `casefold` is `str.casefold`.
module _ (casefold : Text → Text) where
  -- The longest of the pieces has at least `MIN_QUOTE_CHARS` characters.
  unfoldable pub grounded : Text → Text → Bool
  unfolding flat find_in_order
  grounded quote text =
      let parts = filter (λ p. not (is_empty p)) (map (flat casefold) (pieces quote)) in
      any (is_longer 12) parts && find_in_order parts (flat casefold text)

  -- The source is the request itself.
  unfoldable pub is_request : Text → Bool
  unfolding mem
  is_request source =
      mem (casefold (strip source))
        ([] ∷ codes "request" ∷ codes "the request" ∷ codes "prompt" ∷ [])

  -- `read_source` is the text of a document of the workspace, none where it is no file that can be
  -- read, lies outside or is too large; `line_range` is what `_LINES` finds in a whole text.
  module _ (read_source : Text → Option Text) (line_range : Text → Option (ℕ × Option ℕ)) where
    unfoldable pub source_text : Text → Text → Option Text
    unfolding is_request
    source_text request source =
        if is_request source then some request else read_source (strip source)

    abbrev pub last_of : ℕ → Option ℕ → ℕ
    last_of first none = first
    last_of first (some last) = last

    -- The lines of a range, after its tests.
    unfoldable pub lines_between : List Text → ℕ → ℕ → Citation
    unfolding take_lines join flat
    lines_between all_lines first last =
        let text =
          strip (join (10 ∷ []) (take_lines (last - (first - 1)) (drop (first - 1) all_lines))) in
        if not (leb 1 first && leb first last && leb last (length all_lines))
        then refused (outside (length all_lines) first last)
        else if not (leb ((last + 1) - first) 40)
        then refused (too_many first last)
        else if is_longer 12 (flat casefold text)
        then body text
        else refused too_little

    unfoldable pub cited : Text → Text → Option Text → Citation
    unfolding is_request splitlines lines_between
    cited lines source text =
        let found : Citation = elim text [
          | none ↦ refused no_document
          | some t ↦ elim (line_range lines) [
            | none ↦ refused no_range
            | some r ↦ lines_between (splitlines t) r.0 (last_of r.0 r.1)
          ]
        ] in
        if is_request source then refused of_request else found

    abbrev pub stands : Text → Option Text → Bool
    stands quote none = false
    stands quote (some text) = grounded quote text

    -- The quote to keep and its source, or the note that there is none.
    unfoldable pub chosen : Text → Quoted → LedgerNote ⊎ (Text × Text)
    unfolding cited source_text grounded text_eq
    chosen request item =
        let text = source_text request item.source in
        if not (is_empty item.lines)
        then elim (cited item.lines item.source text) [
          | refused why ↦ inl (not_cited item.lines item.source why)
          | body b ↦ inr (b, item.source)
        ]
        else if stands item.quote text
        then inr (item.quote, item.source)
        else if not (text_eq item.source (codes "request")) && grounded item.quote request
        then inr (item.quote, codes "request")
        else inl (not_word_for_word item.quote item.source)

    -- One that is held already, inside one that is, or around one.
    unfoldable pub is_held : List (Text × Text) → Text → Text → Bool
    unfolding contains text_eq
    is_held seen words source =
        any (λ s. text_eq s.1 source && (contains words s.0 || contains s.0 words)) seen

    -- `decimal` is `str` on a number.
    module _ (decimal : ℕ → Text) (request found_by : Text) where
      abbrev pub required : ℕ → Quoted → Text × Text → Requirement
      required n item kept = record {
        id = b'R' ∷ decimal (n + 1);
        quote = kept.0;
        source = kept.1;
        lines = item.lines;
        found_by = found_by;
        whole = item.whole;
        checked_by = item.checked_by;
        set_aside = [];
        not_tested = [];
      }

      -- The loop of `build_ledger`.
      unfoldable pub add_each :
          List Quoted
          → List Requirement
          → List LedgerNote
          → List (Text × Text)
          → List Requirement × List LedgerNote
      unfolding chosen is_held flat
      add_each [] ledger notes seen = (ledger, notes)
      add_each (item ∷ items) ledger notes seen = elim (chosen request item) [
        | inl refusal ↦ add_each items ledger (notes ++ refusal ∷ []) seen
        | inr kept ↦ elim (is_held seen (flat casefold kept.0) kept.1) [
          | true ↦ add_each items ledger notes seen
          | false ↦ elim (leb 60 (length ledger)) [
            | true ↦ (ledger, notes ++ past_the_most kept.0 ∷ [])
            | false ↦
                add_each items (ledger ++ required (length ledger) item kept ∷ []) notes
                  (seen ++ (flat casefold kept.0, kept.1) ∷ [])
          ]
        ]
      ]

      unfoldable pub build_ledger :
          List Requirement → List Quoted → List Requirement × List LedgerNote
      unfolding add_each flat
      build_ledger held items =
          add_each items held []
            (map (λ r. (flat casefold (Requirement.quote r), Requirement.source r)) held)
