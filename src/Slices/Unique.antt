-- ===== src/Slices/Unique.antt =====
-- About `const_slice_unique!` and `const_count_dup!` of disintegrate/src/utils.rs.
use disintegrate.Prelude.{
  ◌+◌, ◌≡◌, refl, ap, sym, ◌∙◌, true, false, List, [], ◌∷◌, All, arith, Bool-cases, inl, inr, ltb,
}
use disintegrate.Slices.{
  Comparison, less, is_same, length, const_slice_sort, has_same, const_count_dup, unique_after,
  unique_sorted, const_slice_unique,
}
use disintegrate.Slices.Order.{IsOrder, leq}
use disintegrate.Slices.Sorting.{Rising, count, const_slice_sort-Rising}

module _ {A : Type 0} (cmp : A → A → Comparison) where
  -- Every element is less than the later ones.
  abbrev pub Strict : List A → Type 0
  Strict [] = Unit
  Strict (x ∷ xs) = All (λ z. cmp x z ≡ less) xs × Strict xs

module _ {A : Type 0} (cmp : A → A → Comparison) (order : IsOrder cmp) where
  leq_of_same : (x y : A) → is_same (cmp x y) ≡ true → (leq (cmp x y) ≡ true)
  leq_of_same x y h = ground arith

  same_sym : (x y : A) → is_same (cmp x y) ≡ is_same (cmp y x)
  same_sym x y = ground (arith, order.flips x y)

  same_of_leq : (x y : A) → leq (cmp x y) ≡ true → leq (cmp y x) ≡ true → is_same (cmp x y) ≡ true
  same_of_leq x y h k = ground (arith, order.flips x y)

  less_of_leq : (x y : A) → leq (cmp x y) ≡ true → is_same (cmp y x) ≡ false → cmp x y ≡ less
  less_of_leq x y h k = ground (arith, order.flips x y)

  -- Two elements that are the same compare alike with a third.
  same_trans :
      (x y z : A) → is_same (cmp x y) ≡ true → is_same (cmp y z) ≡ true → is_same (cmp x z) ≡ true
  same_trans x y z h k =
      same_of_leq x z (order.transitive x y z (leq_of_same x y h) (leq_of_same y z k)) (
        order.transitive z y x (leq_of_same z y (same_sym z y ∙ k))
          (leq_of_same y x (same_sym y x ∙ h)))

  same_alike : (x y z : A) → is_same (cmp x y) ≡ true → is_same (cmp x z) ≡ is_same (cmp y z)
  same_alike x y z h = elim (Bool-cases (is_same (cmp x z))) [
    | inl eq ↦ eq ∙ sym (same_trans y x z (same_sym y x ∙ h) eq)
    | inr ne ↦ elim (Bool-cases (is_same (cmp y z))) [
      | inl eq ↦ absurd (cc (same_trans x y z h eq, ne))
      | inr ne' ↦ ne ∙ sym ne'
    ]
  ]

  has_same_alike :
      (x y : A) (zs : List A) → is_same (cmp x y) ≡ true → has_same cmp x zs ≡ has_same cmp y zs
  has_same_alike x y [] h = refl
  has_same_alike x y (z ∷ zs) h = rw (same_alike x y z h, has_same_alike x y zs h) refl

  -- What is less than the first of a rising slice is not in the slice.
  not_has_same :
      (x y : A) (zs : List A)
      → cmp x y ≡ less
      → All (λ z. leq (cmp y z) ≡ true) zs
      → has_same cmp x zs ≡ false
  not_has_same x y [] h le = refl
  not_has_same x y (z ∷ zs) h le = elim (Bool-cases (is_same (cmp x z))) [
    | inr ne ↦ rw ne (not_has_same x y zs h le.1)
    | inl eq ↦
        let back : leq (cmp z x) ≡ true = leq_of_same z x (same_sym z x ∙ eq) in
        let wrong = order.transitive y z x le.0 back in absurd (ground (arith, order.flips x y))
  ]

  length-unique_after :
      (last : A) (xs : List A)
      → Rising cmp (last ∷ xs)
      → length (unique_after cmp last xs) + const_count_dup cmp (last ∷ xs) ≡ length xs
  unfolding unique_after const_count_dup
  length-unique_after last [] r = refl
  length-unique_after last (x ∷ xs) r = elim (Bool-cases (is_same (cmp x last))) [
    | inl eq ↦
        let ih = length-unique_after last xs (r.0.1, r.1.1) in
        let alike = has_same_alike x last xs eq in
        rw (same_sym last x, eq) (omega (arith, rw (← alike) at ih))
    | inr ne ↦
        let ih = length-unique_after x xs r.1 in
        let alone = not_has_same last x xs (less_of_leq last x r.0.0 ne) r.1.0 in
        rw (same_sym last x, ne, alone) (omega (arith, ih))
  ]

  All-unique_after :
      (P : A → Type 0) (last : A) (xs : List A) → All P xs → All P (unique_after cmp last xs)
  unfolding unique_after
  All-unique_after P last [] h = tt
  All-unique_after P last (x ∷ xs) h = elim (Bool-cases (is_same (cmp x last))) [
    | inl eq ↦ rw eq (All-unique_after P last xs h.1)
    | inr ne ↦ rw ne (h.0, All-unique_after P x xs h.1)
  ]

  less_before :
      (last x : A) (zs : List A)
      → cmp last x ≡ less
      → All (λ z. leq (cmp x z) ≡ true) zs
      → All (λ z. cmp last z ≡ less) zs
  less_before last x [] h le = tt
  less_before last x (z ∷ zs) h le =
      let far = not_has_same last x (z ∷ []) h (le.0, tt) in
      let up = order.transitive last x z (ground arith) le.0 in
      (ground arith, less_before last x zs h le.1)

  unique_after-Strict :
      (last : A) (xs : List A)
      → Rising cmp (last ∷ xs)
      → Strict cmp (last ∷ unique_after cmp last xs)
  unfolding unique_after
  unique_after-Strict last [] r = (tt, tt)
  unique_after-Strict last (x ∷ xs) r = elim (Bool-cases (is_same (cmp x last))) [
    | inl eq ↦ rw eq (unique_after-Strict last xs (r.0.1, r.1.1))
    | inr ne ↦
        let below = less_of_leq last x r.0.0 ne in
        let rest = All-unique_after (λ z. leq (cmp x z) ≡ true) x xs r.1.0 in
        rw ne (
          (below, less_before last x (unique_after cmp x xs) below rest),
          unique_after-Strict x xs r.1,
        )
  ]

  has_same-unique_after :
      (q last : A) (xs : List A)
      → has_same cmp q (last ∷ unique_after cmp last xs) ≡ has_same cmp q (last ∷ xs)
  unfolding unique_after
  has_same-unique_after q last [] = refl
  has_same-unique_after q last (x ∷ xs) = elim (Bool-cases (is_same (cmp x last))) [
    | inl eq ↦
        let ih = has_same-unique_after q last xs in
        let alike : is_same (cmp q x) ≡ is_same (cmp q last) =
          same_sym q x ∙ same_alike x last q eq ∙ same_sym last q in
        rw eq (ground arith)
    | inr ne ↦ let ih = has_same-unique_after q x xs in rw ne (ground arith)
  ]

  unique_sorted-Rising :
      (xs : List A)
      → Rising cmp xs
      → (length (unique_sorted cmp xs) + const_count_dup cmp xs ≡ length xs)
        × Strict cmp (unique_sorted cmp xs)
        × ((q : A) → has_same cmp q (unique_sorted cmp xs) ≡ has_same cmp q xs)
  unfolding const_count_dup
  unique_sorted-Rising [] r = (refl, tt, λ q. refl)
  unique_sorted-Rising (x ∷ xs) r = (
    omega (arith, length-unique_after x xs r),
    unique_after-Strict x xs r,
    λ q. has_same-unique_after q x xs,
  )

  has_same-count :
      (q : A) (xs : List A) → has_same cmp q xs ≡ ltb 0 (count (λ z. is_same (cmp q z)) xs)
  has_same-count q [] = refl
  has_same-count q (x ∷ xs) = ground (arith, has_same-count q xs)

  length-count : (xs : List A) → length xs ≡ count (λ z. true) xs
  length-count [] = refl
  length-count (x ∷ xs) = omega (arith, length-count xs)

  -- For a comparison that is an order, the elements written fill an array exactly whose length is that
  -- of the slice less the duplicates counted in the sorted slice; they are in strictly rising order, and
  -- the same elements occur among them as in the slice.
  pub const_slice_unique_lem :
      (xs : List A)
      → (length (const_slice_unique cmp xs) + const_count_dup cmp (const_slice_sort cmp xs)
          ≡ length xs)
        × Strict cmp (const_slice_unique cmp xs)
        × ((q : A) → has_same cmp q (const_slice_unique cmp xs) ≡ has_same cmp q xs)
  unfolding const_slice_unique
  const_slice_unique_lem xs =
      let sorted = const_slice_sort cmp xs in
      let (rising, counts) = const_slice_sort-Rising cmp order xs in
      let (len, strict, alike) = unique_sorted-Rising sorted rising in
      (
        omega (arith, len, length-count xs, length-count sorted, counts (λ z. true)),
        strict,
        λ q.
            alike q
            ∙ has_same-count q sorted
            ∙ ap (λ n. ltb 0 n) (counts (λ z. is_same (cmp q z)))
            ∙ sym (has_same-count q xs),
      )
