-- ===== src/Postgres/Reading/Order.antt =====
-- About `ORDER BY event_id` in `stream` of disintegrate-postgres/src/event_store.rs.
use disintegrate.Prelude.{
  ◌≤◌, ◌<◌, ◌≡◌, refl, Bool, List, [], ◌∷◌, filter, ltb, All, arith, Bool-cases, inl, inr,
  if◌then◌else◌,
}
use disintegrate.Event.{EventId, PersistedEvent}
use disintegrate.EventStore.{Increasing}
use disintegrate.Postgres.Session.Single.{count_id}
use disintegrate.Postgres.Reading.{insert_by_id, order_by_id}

module _ {E : Type 0} where
  All-insert :
      (P : PersistedEvent E → Type 0) (e : PersistedEvent E) (xs : List (PersistedEvent E))
      → P e
      → All P xs
      → All P (insert_by_id e xs)
  All-insert P e [] here h = (here, tt)
  All-insert P e (x ∷ xs) here h = elim (Bool-cases (ltb e.id x.id)) [
    | inl y ↦ rw y (here, h)
    | inr n ↦ rw n (h.0, All-insert P e xs here h.1)
  ]

  pub All-order :
      (P : PersistedEvent E → Type 0) (xs : List (PersistedEvent E))
      → All P xs
      → All P (order_by_id xs)
  All-order P [] h = tt
  All-order P (x ∷ xs) h = All-insert P x (order_by_id xs) h.0 (All-order P xs h.1)

  insert-count :
      (n : EventId) (e : PersistedEvent E) (xs : List (PersistedEvent E))
      → count_id n (insert_by_id e xs) ≡ count_id n (e ∷ xs)
  insert-count n e [] = refl
  insert-count n e (x ∷ xs) = ground (arith, insert-count n e xs)

  order-count :
      (n : EventId) (xs : List (PersistedEvent E)) → count_id n (order_by_id xs) ≡ count_id n xs
  order-count n [] = refl
  order-count n (x ∷ xs) = omega (arith, insert-count n x (order_by_id xs), order-count n xs)

  insert-Increasing :
      (lo : EventId) (e : PersistedEvent E) (xs : List (PersistedEvent E))
      → Increasing lo xs
      → lo < e.id
      → count_id e.id xs ≡ 0
      → Increasing lo (insert_by_id e xs)
  insert-Increasing lo e [] h lt none_here = (lt, tt)
  insert-Increasing lo e (x ∷ xs) h lt none_here = elim (Bool-cases (ltb e.id x.id)) [
    | inl y ↦ rw y (lt, (ground arith, h.1))
    | inr n ↦ rw n (h.0, insert-Increasing x.id e xs h.1 (ground arith) (ground arith))
  ]

  -- Different ids after a number come out strictly increasing.
  pub order-Increasing :
      (lo : EventId) (xs : List (PersistedEvent E))
      → All (λ e. lo < e.id) xs
      → ((n : EventId) → count_id n xs ≤ 1)
      → Increasing lo (order_by_id xs)
  order-Increasing lo [] above once = tt
  order-Increasing lo (x ∷ xs) above once =
      insert-Increasing lo x (order_by_id xs)
        (order-Increasing lo xs above.1 (λ n. omega (arith, once n))) above.0
        (let here = once x.id in let same = order-count x.id xs in ground arith)

  pub Increasing-weaken :
      (lo hi : EventId) (xs : List (PersistedEvent E))
      → lo ≤ hi
      → Increasing hi xs
      → Increasing lo xs
  Increasing-weaken lo hi [] le h = tt
  Increasing-weaken lo hi (x ∷ xs) le h = (omega (arith, h.0), h.1)

  pub Increasing-filter :
      (p : PersistedEvent E → Bool) (lo : EventId) (xs : List (PersistedEvent E))
      → Increasing lo xs
      → Increasing lo (filter p xs)
  Increasing-filter p lo [] h = tt
  Increasing-filter p lo (x ∷ xs) h = elim (Bool-cases (p x)) [
    | inl y ↦ rw y (h.0, Increasing-filter p x.id xs h.1)
    | inr n ↦ rw n (
        Increasing-weaken lo x.id (filter p xs) (omega (arith, h.0))
          (Increasing-filter p x.id xs h.1))
  ]

  pub count_id-filter :
      (p : PersistedEvent E → Bool) (n : EventId) (xs : List (PersistedEvent E))
      → count_id n (filter p xs) ≤ count_id n xs
  count_id-filter p n [] = omega arith
  count_id-filter p n (x ∷ xs) = ground (arith, count_id-filter p n xs)

  insert_first :
      (e : PersistedEvent E) (xs : List (PersistedEvent E))
      → Increasing e.id xs
      → insert_by_id e xs ≡ e ∷ xs
  insert_first e [] h = refl
  insert_first e (x ∷ xs) h = let lt = h.0 in ground arith

  insert-filter :
      (p : PersistedEvent E → Bool) (lo : EventId) (e : PersistedEvent E)
      (xs : List (PersistedEvent E))
      → Increasing lo xs
      → filter p (insert_by_id e xs) ≡ (if p e then insert_by_id e (filter p xs) else filter p xs)
  insert-filter p lo e [] h = ground arith
  insert-filter p lo e (x ∷ xs) h = elim (Bool-cases (ltb e.id x.id)) [
    | inr n ↦ ground (arith, insert-filter p x.id e xs h.1)
    | inl y ↦ elim (Bool-cases (p x)) [
      | inl keeps ↦ ground arith
      | inr drops ↦
          let after = insert_first e (filter p xs) (
            Increasing-weaken e.id x.id (filter p xs) (ground arith)
              (Increasing-filter p x.id xs h.1)) in
          ground arith
    ]
  ]

  -- Filtering and ordering commute, for different ids after a number.
  pub order-filter :
      (p : PersistedEvent E → Bool) (lo : EventId) (xs : List (PersistedEvent E))
      → All (λ e. lo < e.id) xs
      → ((n : EventId) → count_id n xs ≤ 1)
      → order_by_id (filter p xs) ≡ filter p (order_by_id xs)
  order-filter p lo [] above once = refl
  order-filter p lo (x ∷ xs) above once =
      let once' : (n : EventId) → count_id n xs ≤ 1 = λ n. omega (arith, once n) in
      let ih = order-filter p lo xs above.1 once' in
      let commutes = insert-filter p lo x (order_by_id xs) (order-Increasing lo xs above.1 once') in
      ground arith
