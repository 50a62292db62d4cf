-- ===== src/Slices/Order.antt =====
-- The comparison of texts of disintegrate/src/utils.rs as an order.
use disintegrate.Prelude.{ℕ, ◌≡◌, refl, Bool, true, false, List, [], ◌∷◌, ltb, arith, if◌then◌else◌}
use disintegrate.Slices.{Comparison, less, same, greater, compare}

-- The reversed comparison.
abbrev pub flip : Comparison → Comparison
flip less = greater
flip same = same
flip greater = less

-- Not greater.
abbrev pub leq : Comparison → Bool
leq less = true
leq same = true
leq greater = false

pub record IsOrder {A : Type 0} (cmp : A → A → Comparison) : Type 0 where
  pub flips : (x y : A) → cmp y x ≡ flip (cmp x y)
  pub reflexive : (x : A) → cmp x x ≡ same
  pub transitive : (x y z : A) → leq (cmp x y) ≡ true → leq (cmp y z) ≡ true → leq (cmp x z) ≡ true

flip_if :
    (x y : ℕ) (c d : Comparison)
    → d ≡ flip c
    → (if ltb y x then less else if ltb x y then greater else d)
      ≡ flip (if ltb x y then less else if ltb y x then greater else c)
flip_if x y c d h = ground arith

compare_flips : (xs ys : List ℕ) → compare ys xs ≡ flip (compare xs ys)
unfolding compare
compare_flips [] [] = refl
compare_flips [] (y ∷ ys) = refl
compare_flips (x ∷ xs) [] = refl
compare_flips (x ∷ xs) (y ∷ ys) = flip_if x y (compare xs ys) (compare ys xs) (compare_flips xs ys)

compare_reflexive : (xs : List ℕ) → compare xs xs ≡ same
unfolding compare
compare_reflexive [] = refl
compare_reflexive (x ∷ xs) = ground (arith, compare_reflexive xs)

-- If a text is at most a second one, and that at most a third, the first is at most the third.
compare_transitive :
    (xs ys zs : List ℕ)
    → leq (compare xs ys) ≡ true
    → leq (compare ys zs) ≡ true
    → leq (compare xs zs) ≡ true
unfolding compare
compare_transitive [] ys [] h k = refl
compare_transitive [] ys (z ∷ zs) h k = refl
compare_transitive (x ∷ xs) [] zs h k = absurd (ground arith)
compare_transitive (x ∷ xs) (y ∷ ys) [] h k = absurd (ground arith)
compare_transitive (x ∷ xs) (y ∷ ys) (z ∷ zs) h k = ground (arith, compare_transitive xs ys zs)

-- The comparison of texts is a total order up to equality of bytes.
pub compare-IsOrder : IsOrder compare
compare-IsOrder = record {
  flips = compare_flips;
  reflexive = compare_reflexive;
  transitive = compare_transitive;
}
