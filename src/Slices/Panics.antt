-- ===== src/Slices/Panics.antt =====
-- When `const_slice_unique!` of disintegrate/src/utils.rs panics at a comparison that can.
use mathlib.Core.List.{Memᴰ}
use mathlib.Core.Path.{subst}
use disintegrate.Prelude.{
  ◌≡◌, ◌⊎◌, refl, ap, sym, ◌∙◌, Bool, true, false, some, List, [], ◌∷◌, All, arith, if◌then◌else◌,
  Bool-cases, Option-cases, inl, inr,
}
use disintegrate.Slices.{
  Comparison, is_less, is_same, sink, sort_onto, reverse_onto, const_slice_sort, unique_after,
  unique_sorted, const_slice_unique,
}
use disintegrate.Slices.Checked.{
  sink_checked, sort_onto_checked, count_dup_checked, unique_after_checked, unique_sorted_checked,
  const_slice_unique_checked,
}

module _ {A : Type 0} (cmp : A → A → Comparison) (clash : A → A → Bool) where
  sink_checked-some :
      (x : A) (p q : List A) → sink_checked cmp clash x p ≡ some q → q ≡ sink cmp x p
  unfolding sink_checked sink
  sink_checked-some x [] q h = ground arith
  sink_checked-some x (y ∷ p) q h = elim (Option-cases (sink_checked cmp clash x p)) [
    | inl o ↦ ground arith
    | inr (r, o) ↦ let ih = sink_checked-some x p r o in ground arith
  ]

  sort_onto_checked-some :
      (p xs q : List A) → sort_onto_checked cmp clash p xs ≡ some q → q ≡ sort_onto cmp p xs
  unfolding sort_onto_checked sort_onto
  sort_onto_checked-some p [] q h = ground arith
  sort_onto_checked-some p (x ∷ xs) q h = elim (Option-cases (sink_checked cmp clash x p)) [
    | inl o ↦ absurd (ground arith)
    | inr (r, o) ↦
        let one = sink_checked-some x p r o in
        let rest : sort_onto_checked cmp clash r xs ≡ some q = ground arith in
        rw (← one) (sort_onto_checked-some r xs q rest)
  ]

  -- An element of the list stands for `x`: it is `x`, or it is the same and does not clash.
  abbrev pub StandsFor : List A → A → Type 0
  StandsFor ys x =
      (y : A) × Memᴰ y ys × ((x ≡ y) ⊎ ((is_same (cmp x y) ≡ true) × (clash x y ≡ false)))

  later : (y x : A) (ys : List A) → StandsFor ys x → StandsFor (y ∷ ys) x
  later y x ys (z, m, same) = (z, Memᴰ.tail m, same)

  behind : (z last x : A) (ys : List A) → StandsFor (x ∷ ys) z → StandsFor (last ∷ x ∷ ys) z
  behind z last x ys s = later last z (x ∷ ys) s

  All-stands :
      (last x : A) (ys xs : List A)
      → All (StandsFor (x ∷ ys)) xs
      → All (StandsFor (last ∷ x ∷ ys)) xs
  All-stands last x ys [] h = tt
  All-stands last x ys (z ∷ xs) h = (behind z last x ys h.0, All-stands last x ys xs h.1)

  pub unique_after_checked-some :
      (last : A) (xs ys : List A)
      → unique_after_checked cmp clash last xs ≡ some ys
      → (ys ≡ unique_after cmp last xs) × All (StandsFor (last ∷ ys)) xs
  unfolding unique_after_checked unique_after
  unique_after_checked-some last [] ys h = (ground arith, tt)
  unique_after_checked-some last (x ∷ xs) ys h = elim (Bool-cases (is_same (cmp x last))) [
    | inl eq ↦
        let peaceful : clash x last ≡ false = ground arith in
        let rest : unique_after_checked cmp clash last xs ≡ some ys = ground arith in
        let (shape, stand) = unique_after_checked-some last xs ys rest in
        rw eq (shape, ((last, Memᴰ.head refl, inr (eq, peaceful)), stand))
    | inr ne ↦ elim (Option-cases (unique_after_checked cmp clash x xs)) [
      | inl o ↦ absurd (ground arith)
      | inr (zs, o) ↦
          let (shape, stand) = unique_after_checked-some x xs zs o in
          let whole : ys ≡ x ∷ zs = ground arith in
          subst
            (λ l.
              (l ≡ (
                if is_same (cmp x last)
                then unique_after cmp last xs
                else x ∷ unique_after cmp x xs))
              × All (StandsFor (last ∷ l)) (x ∷ xs))
            (sym whole)
            (
              rw ne (ap (λ l. x ∷ l) shape),
              ((x, Memᴰ.tail (Memᴰ.head refl), inl refl), All-stands last x zs xs stand),
            )
    ]
  ]

  All-unsink : (P : A → Type 0) (x : A) (p : List A) → All P (sink cmp x p) → P x × All P p
  unfolding sink
  All-unsink P x [] h = h
  All-unsink P x (y ∷ p) h = elim (Bool-cases (is_less (cmp x y))) [
    | inr stop ↦ rw stop at h
    | inl less ↦
        let kept : P y × All P (sink cmp x p) = rw less at h in
        let (own, others) = All-unsink P x p kept.1 in (own, (kept.0, others))
  ]

  All-unsort_onto :
      (P : A → Type 0) (p xs : List A) → All P (sort_onto cmp p xs) → All P p × All P xs
  unfolding sort_onto
  All-unsort_onto P p [] h = (h, tt)
  All-unsort_onto P p (x ∷ xs) h =
      let (sunk, rest) = All-unsort_onto P (sink cmp x p) xs h in
      let (own, others) = All-unsink P x p sunk in (others, (own, rest))

  All-unreverse :
      (P : A → Type 0) (acc xs : List A) → All P (reverse_onto cmp acc xs) → All P acc × All P xs
  All-unreverse P acc [] h = (h, tt)
  All-unreverse P acc (x ∷ xs) h =
      let (kept, rest) = All-unreverse P (x ∷ acc) xs h in (kept.1, (kept.0, rest))

  All-unsort :
      (P : A → Type 0) (xs : List A) → All P (reverse_onto cmp [] (sort_onto cmp [] xs)) → All P xs
  All-unsort P xs h = (All-unsort_onto P [] xs (All-unreverse P [] (sort_onto cmp [] xs) h).1).1

  unique_sorted_checked-some :
      (xs ys : List A)
      → unique_sorted_checked cmp clash xs ≡ some ys
      → (ys ≡ unique_sorted cmp xs) × All (StandsFor ys) xs
  unique_sorted_checked-some [] ys h = (ground arith, tt)
  unique_sorted_checked-some (x ∷ xs) ys h =
      elim (Option-cases (unique_after_checked cmp clash x xs)) [
        | inl o ↦ absurd (ground arith)
        | inr (zs, o) ↦
            let (shape, stand) = unique_after_checked-some x xs zs o in
            subst (λ l. (l ≡ x ∷ unique_after cmp x xs) × All (StandsFor l) (x ∷ xs)) (ground arith)
              (ap (λ l. x ∷ l) shape, ((x, Memᴰ.head refl, inl refl), stand))
      ]

  -- If the comparison never panics on the way, the slice written is the one of the plain comparison, and
  -- for each element of the given slice one was written that does not clash with it.
  pub const_slice_unique_checked-some :
      (xs ys : List A)
      → const_slice_unique_checked cmp clash xs ≡ some ys
      → (ys ≡ const_slice_unique cmp xs) × All (StandsFor ys) xs
  unfolding const_slice_unique_checked const_slice_unique const_slice_sort
  const_slice_unique_checked-some xs ys h =
      elim (Option-cases (sort_onto_checked cmp clash [] xs)) [
        | inl o ↦ absurd (ground arith)
        | inr (falling, o) ↦
            let sorted = sort_onto_checked-some [] xs falling o in
            elim (Option-cases (count_dup_checked cmp clash (reverse_onto cmp [] falling))) [
              | inl o' ↦ absurd (ground arith)
              | inr (n, o') ↦
                  let rest : unique_sorted_checked cmp clash (reverse_onto cmp [] falling)
                      ≡ some ys =
                    ground arith in
                  let (shape, stand) =
                    unique_sorted_checked-some (reverse_onto cmp [] falling) ys rest in
                  (
                    shape ∙ ap (λ l. unique_sorted cmp (reverse_onto cmp [] l)) sorted,
                    All-unsort (StandsFor ys) xs
                        (subst (λ l. All (StandsFor ys) (reverse_onto cmp [] l)) sorted stand),
                  )
            ]
      ]
