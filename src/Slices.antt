-- ===== src/Slices.antt =====
-- The constant functions on slices of disintegrate/src/utils.rs, which build the schemas at compile
-- time. An index loop is recursion over the slices that it walks; a text is the list of its bytes.
pub mod Order
pub mod Sorting
pub mod Unique
pub mod Checked
pub mod Panics
pub mod Peaceful
pub mod Texts
use disintegrate.Prelude.{
  ℕ, zero, suc, ◌+◌, Bool, true, false, List, [], ◌∷◌, ltb, eqb, if◌then◌else◌,
}

-- The results -1, 0 and 1 of a comparison.
pub data Comparison : Type 0 where
  less same greater : Comparison

abbrev pub is_less : Comparison → Bool
is_less less = true
is_less same = false
is_less greater = false

abbrev pub is_same : Comparison → Bool
is_same less = false
is_same same = true
is_same greater = false

unfoldable pub compare : List ℕ → List ℕ → Comparison
compare [] [] = same
compare [] (y ∷ rhs) = less
compare (x ∷ lhs) [] = greater
compare (x ∷ lhs) (y ∷ rhs) =
    let rest = compare lhs rhs in if ltb x y then less else if ltb y x then greater else rest

abbrev pub length : {A : Type 0} → List A → ℕ
length [] = 0
length (x ∷ xs) = suc (length xs)

-- `eq`: the lengths first, then the bytes.
abbrev all_eq : List ℕ → List ℕ → Bool
all_eq [] rhs = true
all_eq (x ∷ lhs) [] = true
all_eq (x ∷ lhs) (y ∷ rhs) = let rest = all_eq lhs rhs in if eqb x y then rest else false

unfoldable pub eq : List ℕ → List ℕ → Bool
eq lhs rhs = if eqb (length lhs) (length rhs) then all_eq lhs rhs else false

-- The loop of `include`: the rest of `a` from the index i on, and of `b` from the index j on.
unfoldable pub include_from : List (List ℕ) → List (List ℕ) → List (List ℕ) → Bool
unfolding eq
include_from a rest [] = true
include_from a [] (y ∷ b) = false
include_from a (x ∷ rest) (y ∷ b) =
    let found = include_from a a b in
    let further = include_from a rest (y ∷ b) in if eq x y then found else further

unfoldable pub include : List (List ℕ) → List (List ℕ) → Bool
unfolding include_from
include a b = include_from a a b

-- `const_slices_concat!`
unfoldable pub const_slices_concat : {A : Type 0} → List A → List A → List A
const_slices_concat [] b = b
const_slices_concat (x ∷ a) b = x ∷ const_slices_concat a b

module _ {A : Type 0} (cmp : A → A → Comparison) where
  -- The inner loop of `const_slice_sort!`: the new element is swapped with its left neighbour as long
  -- as it is less. The prefix that is sorted already is listed from its last element to its first.
  unfoldable pub sink : A → List A → List A
  sink x [] = x ∷ []
  sink x (y ∷ prefix) =
      let rest = sink x prefix in if is_less (cmp x y) then y ∷ rest else x ∷ y ∷ prefix

  unfoldable pub sort_onto : List A → List A → List A
  unfolding sink
  sort_onto prefix [] = prefix
  sort_onto prefix (x ∷ xs) = sort_onto (sink x prefix) xs

  abbrev pub reverse_onto : List A → List A → List A
  reverse_onto acc [] = acc
  reverse_onto acc (x ∷ xs) = reverse_onto (x ∷ acc) xs

  -- `const_slice_sort!`
  unfoldable pub const_slice_sort : List A → List A
  unfolding sort_onto
  const_slice_sort xs = reverse_onto [] (sort_onto [] xs)

  -- The inner loop of `const_count_dup!`: whether a later element is the same.
  abbrev pub has_same : A → List A → Bool
  has_same x [] = false
  has_same x (y ∷ ys) = let rest = has_same x ys in if is_same (cmp x y) then true else rest

  -- `const_count_dup!`
  unfoldable pub const_count_dup : List A → ℕ
  const_count_dup [] = 0
  const_count_dup (x ∷ xs) =
      let rest = const_count_dup xs in if has_same x xs then rest + 1 else rest

  -- The loop of `const_slice_unique!` over a sorted slice; `last` is what was written last.
  unfoldable pub unique_after : A → List A → List A
  unique_after last [] = []
  unique_after last (x ∷ xs) =
      let skipped = unique_after last xs in
      let written = x ∷ unique_after x xs in if is_same (cmp x last) then skipped else written

  abbrev pub unique_sorted : List A → List A
  unique_sorted [] = []
  unique_sorted (x ∷ xs) = x ∷ unique_after x xs

  -- `const_slice_unique!`
  unfoldable pub const_slice_unique : List A → List A
  unfolding const_slice_sort unique_after
  const_slice_unique xs = unique_sorted (const_slice_sort xs)
