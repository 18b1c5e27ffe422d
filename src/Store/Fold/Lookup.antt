-- ===== src/Store/Fold/Lookup.antt =====
-- Python's `dict`: what a key gives after an assignment.
use supervisor_harness.Prelude.{◌≡◌, refl, arith, some, [], ◌∷◌, if◌then◌else◌}
use supervisor_harness.Text.{Text, text_eq, text_eq_iff, text_eq_refl}
use supervisor_harness.Store.Fold.Dict.{Dict, get, put}

pub get-put_any {ℓ} :
    {A : Type ℓ} (key other : Text) (a : A) (d : Dict A)
    → get other (put key a d) ≡ (if text_eq key other then some a else get other d)
unfolding get put
get-put_any key other a [] = refl
get-put_any key other a ((k, b) ∷ d) = ground (
  arith,
  get-put_any key other a d,
  text_eq_iff k key,
  text_eq_iff key other,
  text_eq_iff k other,
  text_eq_refl other,
)
