-- ===== src/Paths/Base.antt =====
-- The directory that a pattern of core/paths.py names, for each way to write it.
use supervisor_harness.Prelude.{
  ℕ, ◌≡◌, refl, false, none, some, [], ◌∷◌, ◌++◌, ◌∙◌, arith, is_empty, ◌==◌,
}
use supervisor_harness.Text.{Text, codes, starts_with, remove_suffix-none, remove_suffix_self}
use supervisor_harness.Paths.{directory_base, base_by}
use supervisor_harness.Paths.Match.{base_by-skip, base_by-take}

-- The base of a directory pattern is the directory.
pub directory_base-star_star :
    (b : Text) → is_empty b ≡ false → directory_base (b ++ codes "/**") ≡ some b
unfolding directory_base starts_with
directory_base-star_star b h =
    let p = b ++ codes "/**" in
    base_by-skip (codes "/**/*") (codes "/**" ∷ codes "/*" ∷ codes "/" ∷ []) p
      (remove_suffix-none (codes "/**/*") b (codes "/**") refl)
    ∙ base_by-take (codes "/**") (codes "/*" ∷ codes "/" ∷ []) p b
        (remove_suffix_self (codes "/**") b) h

pub directory_base-slash :
    (b : Text) → is_empty b ≡ false → directory_base (b ++ codes "/") ≡ some b
unfolding directory_base starts_with
directory_base-slash b h =
    let p = b ++ codes "/" in
    base_by-skip (codes "/**/*") (codes "/**" ∷ codes "/*" ∷ codes "/" ∷ []) p
      (remove_suffix-none (codes "/**/*") b (codes "/") refl)
    ∙ base_by-skip (codes "/**") (codes "/*" ∷ codes "/" ∷ []) p
        (remove_suffix-none (codes "/**") b (codes "/") refl)
    ∙ base_by-skip (codes "/*") (codes "/" ∷ []) p
        (remove_suffix-none (codes "/*") b (codes "/") refl)
    ∙ base_by-take (codes "/") [] p b (remove_suffix_self (codes "/") b) h

-- A pattern that ends in `c`, no slash and no star, has no base.
pub directory_base-file :
    (b : Text) (c : ℕ)
    → (c == b'/') ≡ false
    → (c == b'*') ≡ false
    → directory_base (b ++ c ∷ []) ≡ none
unfolding directory_base starts_with base_by
directory_base-file b c h k =
    let p = b ++ c ∷ [] in
    base_by-skip (codes "/**/*") (codes "/**" ∷ codes "/*" ∷ codes "/" ∷ []) p
      (remove_suffix-none (codes "/**/*") b (c ∷ []) (ground arith))
    ∙ base_by-skip (codes "/**") (codes "/*" ∷ codes "/" ∷ []) p
        (remove_suffix-none (codes "/**") b (c ∷ []) (ground arith))
    ∙ base_by-skip (codes "/*") (codes "/" ∷ []) p
        (remove_suffix-none (codes "/*") b (c ∷ []) (ground arith))
    ∙ base_by-skip (codes "/") [] p (remove_suffix-none (codes "/") b (c ∷ []) (ground arith))
