-- ===== src/Slices/Texts.antt =====
-- About `compare`, `eq` and `include` of disintegrate/src/utils.rs.
use disintegrate.Prelude.{ℕ, ◌≡◌, refl, ap, ◌∙◌, ◌&&◌, List, [], ◌∷◌, any, all, arith, eqb}
use disintegrate.Slices.{is_same, compare, eq, include_from, include}

eq_cons : (x y : ℕ) (xs ys : List ℕ) → eq (x ∷ xs) (y ∷ ys) ≡ (eqb x y && eq xs ys)
unfolding eq
eq_cons x y xs ys = ground arith

-- Two texts are equal exactly when their comparison gives 0.
pub eq-compare : (lhs rhs : List ℕ) → eq lhs rhs ≡ is_same (compare lhs rhs)
unfolding compare
eq-compare [] [] = unfold eq in ground arith
eq-compare [] (y ∷ rhs) = unfold eq in ground arith
eq-compare (x ∷ lhs) [] = unfold eq in ground arith
eq-compare (x ∷ lhs) (y ∷ rhs) = ground (arith, eq_cons x y lhs rhs, eq-compare lhs rhs)

include_from_lem :
    (a rest b : List (List ℕ)) (y : List ℕ)
    → include_from a rest (y ∷ b) ≡ (any (λ x. eq x y) rest && include_from a a b)
unfolding include_from
include_from_lem a [] b y = refl
include_from_lem a (x ∷ rest) b y = ground (arith, include_from_lem a rest b y)

-- `include a b` is whether every text of `b` is equal to one of `a`, whatever the order.
pub include_lem : (a b : List (List ℕ)) → include a b ≡ all (λ y. any (λ x. eq x y) a) b
unfolding include
include_lem a [] = unfold include_from in refl
include_lem a (y ∷ b) =
    include_from_lem a a b y ∙ ap (λ r. any (λ x. eq x y) a && r) (include_lem a b)
