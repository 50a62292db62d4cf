-- ===== src/Slices/Sorting.antt =====
-- About `const_slice_sort!` of disintegrate/src/utils.rs.
use disintegrate.Prelude.{
  ℕ, ◌+◌, ◌≡◌, refl, Bool, true, false, List, [], ◌∷◌, All, All-weaken, arith, Bool-cases, inl, inr,
  if◌then◌else◌,
}
use disintegrate.Slices.{Comparison, is_less, sink, sort_onto, reverse_onto, const_slice_sort}
use disintegrate.Slices.Order.{IsOrder, leq}

abbrev pub count : {A : Type 0} → (A → Bool) → List A → ℕ
count p [] = 0
count p (x ∷ xs) = (if p x then 1 else 0) + count p xs

module _ {A : Type 0} (cmp : A → A → Comparison) where
  -- Every element is at most the later ones.
  abbrev pub Rising : List A → Type 0
  Rising [] = Unit
  Rising (x ∷ xs) = All (λ z. leq (cmp x z) ≡ true) xs × Rising xs

  abbrev Falling : List A → Type 0
  Falling [] = Unit
  Falling (x ∷ xs) = All (λ z. leq (cmp z x) ≡ true) xs × Falling xs

  -- Every element of the first list is at most every element of the second.
  abbrev Before : List A → List A → Type 0
  Before xs ys = All (λ x. All (λ y. leq (cmp x y) ≡ true) ys) xs

module _ {A : Type 0} (cmp : A → A → Comparison) (order : IsOrder cmp) where
  All-sink : (P : A → Type 0) (x : A) (xs : List A) → P x → All P xs → All P (sink cmp x xs)
  unfolding sink
  All-sink P x [] p h = (p, tt)
  All-sink P x (y ∷ xs) p h = elim (Bool-cases (is_less (cmp x y))) [
    | inl l ↦ rw l (h.0, All-sink P x xs p h.1)
    | inr n ↦ rw n (p, h)
  ]

  leq_of_less : (x y : A) → is_less (cmp x y) ≡ true → leq (cmp x y) ≡ true
  leq_of_less x y h = ground arith

  leq_of_not_less : (x y : A) → is_less (cmp x y) ≡ false → leq (cmp y x) ≡ true
  leq_of_not_less x y h = ground (arith, order.flips x y)

  sink-Falling : (x : A) (xs : List A) → Falling cmp xs → Falling cmp (sink cmp x xs)
  unfolding sink
  sink-Falling x [] h = (tt, tt)
  sink-Falling x (y ∷ xs) h = elim (Bool-cases (is_less (cmp x y))) [
    | inl l ↦
        rw l
          (All-sink (λ z. leq (cmp z y) ≡ true) x xs (leq_of_less x y l) h.0, sink-Falling x xs h.1)
    | inr n ↦
        let up = leq_of_not_less x y n in
        let all : All (λ z. leq (cmp z x) ≡ true) xs =
          All-weaken (λ z. leq (cmp z y) ≡ true) (λ z. leq (cmp z x) ≡ true) xs
            (λ z le. order.transitive z y x le up) h.0 in
        rw n ((up, all), h)
  ]

  sort_onto-Falling :
      (prefix xs : List A) → Falling cmp prefix → Falling cmp (sort_onto cmp prefix xs)
  unfolding sort_onto
  sort_onto-Falling prefix [] h = h
  sort_onto-Falling prefix (x ∷ xs) h =
      sort_onto-Falling (sink cmp x prefix) xs (sink-Falling x prefix h)

  Before-step :
      (x : A) (acc xs : List A)
      → All (λ z. leq (cmp z x) ≡ true) xs
      → Before cmp xs acc
      → Before cmp xs (x ∷ acc)
  Before-step x acc [] h b = tt
  Before-step x acc (z ∷ xs) h b = ((h.0, b.0), Before-step x acc xs h.1 b.1)

  reverse_onto-Rising :
      (acc xs : List A)
      → Rising cmp acc
      → Falling cmp xs
      → Before cmp xs acc
      → Rising cmp (reverse_onto cmp acc xs)
  reverse_onto-Rising acc [] r f b = r
  reverse_onto-Rising acc (x ∷ xs) r f b =
      reverse_onto-Rising (x ∷ acc) xs (b.0, r) f.1 (Before-step x acc xs f.0 b.1)

  Before-nil : (xs : List A) → Before cmp xs []
  Before-nil [] = tt
  Before-nil (x ∷ xs) = (tt, Before-nil xs)

  count-sink :
      (p : A → Bool) (x : A) (xs : List A)
      → count p (sink cmp x xs) ≡ (if p x then 1 else 0) + count p xs
  unfolding sink
  count-sink p x [] = refl
  count-sink p x (y ∷ xs) = ground (arith, count-sink p x xs)

  count-sort_onto :
      (p : A → Bool) (prefix xs : List A)
      → count p (sort_onto cmp prefix xs) ≡ count p prefix + count p xs
  unfolding sort_onto
  count-sort_onto p prefix [] = omega arith
  count-sort_onto p prefix (x ∷ xs) =
      omega (arith, count-sort_onto p (sink cmp x prefix) xs, count-sink p x prefix)

  count-reverse_onto :
      (p : A → Bool) (acc xs : List A)
      → count p (reverse_onto cmp acc xs) ≡ count p acc + count p xs
  count-reverse_onto p acc [] = omega arith
  count-reverse_onto p acc (x ∷ xs) = omega (arith, count-reverse_onto p (x ∷ acc) xs)

  -- For a comparison that is an order, the sorted slice is in rising order, and has as many elements
  -- with any property as the slice itself.
  pub const_slice_sort-Rising :
      (xs : List A)
      → Rising cmp (const_slice_sort cmp xs)
        × ((p : A → Bool) → count p (const_slice_sort cmp xs) ≡ count p xs)
  unfolding const_slice_sort
  const_slice_sort-Rising xs = (
    reverse_onto-Rising [] (sort_onto cmp [] xs) tt (sort_onto-Falling [] xs tt)
        (Before-nil (sort_onto cmp [] xs)),
    λ p. omega (arith, count-reverse_onto p [] (sort_onto cmp [] xs), count-sort_onto p [] xs),
  )
