-- ===== src/Slices/Peaceful.antt =====
-- When `const_slice_unique!` of disintegrate/src/utils.rs does not panic at a comparison that can.
use disintegrate.Prelude.{◌≡◌, refl, Bool, some, List, [], ◌∷◌, All, Bool-cases, inl, inr}
use disintegrate.Slices.{
  Comparison, is_less, is_same, sink, sort_onto, reverse_onto, const_slice_sort, has_same,
  const_count_dup, unique_after, unique_sorted, const_slice_unique,
}
use disintegrate.Slices.Checked.{
  guarded, sink_checked, sort_onto_checked, has_same_checked, count_dup_checked,
  unique_after_checked, unique_sorted_checked, const_slice_unique_checked,
}

-- Elements with a property under which no two of them clash.
module _ {A : Type 0} (cmp : A → A → Comparison) (clash : A → A → Bool) (Q : A → Type 0)
    (peaceful : (x y : A) → Q x → Q y → guarded cmp clash x y ≡ some (cmp x y)) where
  sink_checked-sink :
      (x : A) (p : List A)
      → Q x
      → All Q p
      → (sink_checked cmp clash x p ≡ some (sink cmp x p)) × All Q (sink cmp x p)
  unfolding sink_checked sink
  sink_checked-sink x [] q h = (refl, (q, tt))
  sink_checked-sink x (y ∷ p) q h =
      let (ih, all) = sink_checked-sink x p q h.1 in
      elim (Bool-cases (is_less (cmp x y))) [
        | inl less ↦ rw (peaceful x y q h.0, less, ih) (refl, (h.0, all))
        | inr stop ↦ rw (peaceful x y q h.0, stop) (refl, (q, h))
      ]

  sort_onto_checked-sort :
      (p xs : List A)
      → All Q p
      → All Q xs
      → (sort_onto_checked cmp clash p xs ≡ some (sort_onto cmp p xs)) × All Q (sort_onto cmp p xs)
  unfolding sort_onto_checked sort_onto
  sort_onto_checked-sort p [] hp h = (refl, hp)
  sort_onto_checked-sort p (x ∷ xs) hp h =
      let (one, all) = sink_checked-sink x p h.0 hp in
      rw one (sort_onto_checked-sort (sink cmp x p) xs all h.1)

  All-reverse : (acc xs : List A) → All Q acc → All Q xs → All Q (reverse_onto cmp acc xs)
  All-reverse acc [] ha h = ha
  All-reverse acc (x ∷ xs) ha h = All-reverse (x ∷ acc) xs (h.0, ha) h.1

  has_same_checked-same :
      (x : A) (xs : List A)
      → Q x
      → All Q xs
      → has_same_checked cmp clash x xs ≡ some (has_same cmp x xs)
  has_same_checked-same x [] q h = refl
  has_same_checked-same x (y ∷ xs) q h = elim (Bool-cases (is_same (cmp x y))) [
    | inl eq ↦ rw (peaceful x y q h.0, eq) refl
    | inr ne ↦ rw (peaceful x y q h.0, ne) (has_same_checked-same x xs q h.1)
  ]

  count_dup_checked-count :
      (xs : List A) → All Q xs → count_dup_checked cmp clash xs ≡ some (const_count_dup cmp xs)
  unfolding count_dup_checked const_count_dup
  count_dup_checked-count [] h = refl
  count_dup_checked-count (x ∷ xs) h =
      rw (has_same_checked-same x xs h.0 h.1, count_dup_checked-count xs h.1) refl

  unique_after_checked_unique :
      (last : A) (xs : List A)
      → Q last
      → All Q xs
      → unique_after_checked cmp clash last xs ≡ some (unique_after cmp last xs)
  unfolding unique_after_checked unique_after
  unique_after_checked_unique last [] q h = refl
  unique_after_checked_unique last (x ∷ xs) q h = elim (Bool-cases (is_same (cmp x last))) [
    | inl eq ↦ rw (peaceful x last h.0 q, eq) (unique_after_checked_unique last xs q h.1)
    | inr ne ↦ rw (peaceful x last h.0 q, ne, unique_after_checked_unique x xs h.0 h.1) refl
  ]

  unique_sorted_checked_unique :
      (xs : List A) → All Q xs → unique_sorted_checked cmp clash xs ≡ some (unique_sorted cmp xs)
  unique_sorted_checked_unique [] h = refl
  unique_sorted_checked_unique (x ∷ xs) h = rw (unique_after_checked_unique x xs h.0 h.1) refl

  -- Such elements make no comparison panic.
  pub const_slice_unique_checked_unique :
      (xs : List A)
      → All Q xs
      → const_slice_unique_checked cmp clash xs ≡ some (const_slice_unique cmp xs)
  unfolding const_slice_unique_checked const_slice_unique const_slice_sort
  const_slice_unique_checked_unique xs h =
      let (sorts, falling) = sort_onto_checked-sort [] xs tt h in
      let sorted = All-reverse [] (sort_onto cmp [] xs) tt falling in
      rw
        (
          sorts,
          count_dup_checked-count (reverse_onto cmp [] (sort_onto cmp [] xs)) sorted,
          unique_sorted_checked_unique (reverse_onto cmp [] (sort_onto cmp [] xs)) sorted,
        )
        refl
