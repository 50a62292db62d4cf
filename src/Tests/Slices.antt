-- ===== src/Tests/Slices.antt =====
-- Slices of short texts.
use disintegrate.Prelude.{ℕ, ◌≡◌, refl, List, [], ◌∷◌}
use disintegrate.Slices.{compare, const_slice_unique}

-- The texts "b", "a", "ba" and "a".
abbrev texts : List (List ℕ)
texts = (98 ∷ []) ∷ (97 ∷ []) ∷ (98 ∷ 97 ∷ []) ∷ (97 ∷ []) ∷ []

unique_texts : const_slice_unique compare texts ≡ (97 ∷ []) ∷ (98 ∷ []) ∷ (98 ∷ 97 ∷ []) ∷ []
unfolding const_slice_unique compare
unique_texts = refl
