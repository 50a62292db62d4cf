-- ===== src/Slices/Checked.antt =====
-- The constant functions on slices of disintegrate/src/utils.rs at a comparison that can panic, as that
-- of the schemas does; `none` is the panic.
use disintegrate.Prelude.{
  ℕ, ◌+◌, Bool, true, false, ◌&&◌, Option, none, some, List, [], ◌∷◌, ◌>>=◌, if◌then◌else◌,
}
use disintegrate.Slices.{Comparison, is_less, is_same, reverse_onto}

module _ {A : Type 0} (cmp : A → A → Comparison) (clash : A → A → Bool) where
  -- A comparison that panics at two elements that are the same and clash.
  abbrev pub guarded : A → A → Option Comparison
  guarded x y = if is_same (cmp x y) && clash x y then none else some (cmp x y)

  unfoldable pub sink_checked : A → List A → Option (List A)
  sink_checked x [] = some (x ∷ [])
  sink_checked x (y ∷ prefix) =
      let rest = sink_checked x prefix in
      guarded x y >>= λ c.
      if is_less c then (rest >>= λ ys. some (y ∷ ys)) else some (x ∷ y ∷ prefix)

  unfoldable pub sort_onto_checked : List A → List A → Option (List A)
  unfolding sink_checked
  sort_onto_checked prefix [] = some prefix
  sort_onto_checked prefix (x ∷ xs) =
      sink_checked x prefix >>= λ prefix'. sort_onto_checked prefix' xs

  abbrev pub has_same_checked : A → List A → Option Bool
  has_same_checked x [] = some false
  has_same_checked x (y ∷ ys) =
      let rest = has_same_checked x ys in guarded x y >>= λ c. if is_same c then some true else rest

  unfoldable pub count_dup_checked : List A → Option ℕ
  count_dup_checked [] = some 0
  count_dup_checked (x ∷ xs) = has_same_checked x xs >>= λ found.
      count_dup_checked xs >>= λ rest. some (if found then rest + 1 else rest)

  unfoldable pub unique_after_checked : A → List A → Option (List A)
  unique_after_checked last [] = some []
  unique_after_checked last (x ∷ xs) =
      let skipped = unique_after_checked last xs in
      let written = unique_after_checked x xs in
      guarded x last >>= λ c. if is_same c then skipped else (written >>= λ ys. some (x ∷ ys))

  abbrev pub unique_sorted_checked : List A → Option (List A)
  unique_sorted_checked [] = some []
  unique_sorted_checked (x ∷ xs) = unique_after_checked x xs >>= λ ys. some (x ∷ ys)

  -- `const_slice_unique!`: the slice is sorted, its duplicates are counted, and then it is written.
  unfoldable pub const_slice_unique_checked : List A → Option (List A)
  unfolding sort_onto_checked count_dup_checked unique_after_checked
  const_slice_unique_checked xs = do
    falling ← sort_onto_checked [] xs
    duplicates ← count_dup_checked (reverse_onto cmp [] falling)
    unique_sorted_checked (reverse_onto cmp [] falling)
