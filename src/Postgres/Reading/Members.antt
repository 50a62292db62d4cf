-- ===== src/Postgres/Reading/Members.antt =====
-- About the members of the lists that `stream` of disintegrate-postgres/src/event_store.rs makes.
use mathlib.Core.List.{Memᴰ}
use mathlib.Core.List.Memᴰ.{cases_cons}
use disintegrate.Prelude.{
  ◌<◌, ◌≡◌, Bool, true, List, [], ◌∷◌, filter, ltb, arith, Bool-cases, inl, inr,
}
use disintegrate.Event.{EventId, PersistedEvent}
use disintegrate.EventStore.{Increasing}
use disintegrate.Postgres.Reading.{insert_by_id, order_by_id}

module _ {E : Type 0} where
  pub mem-filter :
      (p : PersistedEvent E → Bool) (e : PersistedEvent E) (xs : List (PersistedEvent E))
      → p e ≡ true
      → Memᴰ e xs
      → Memᴰ e (filter p xs)
  mem-filter p e [] holds m = elim m [ ]
  mem-filter p e (x ∷ xs) holds (Memᴰ.head same) =
      let here : p x ≡ true = rw same at holds in rw here (Memᴰ.head same)
  mem-filter p e (x ∷ xs) holds (Memᴰ.tail later) = elim (Bool-cases (p x)) [
    | inl y ↦ rw y (Memᴰ.tail (mem-filter p e xs holds later))
    | inr n ↦ rw n (mem-filter p e xs holds later)
  ]

  pub mem_of_mem-filter :
      (p : PersistedEvent E → Bool) (e : PersistedEvent E) (xs : List (PersistedEvent E))
      → Memᴰ e (filter p xs)
      → Memᴰ e xs
  mem_of_mem-filter p e [] m = m
  mem_of_mem-filter p e (x ∷ xs) m = elim (Bool-cases (p x)) [
    | inl y ↦ elim (cases_cons (rw y at m)) [
      | inl same ↦ Memᴰ.head same
      | inr later ↦ Memᴰ.tail (mem_of_mem-filter p e xs later)
    ]
    | inr n ↦ Memᴰ.tail (mem_of_mem-filter p e xs (rw n at m))
  ]

  mem-insert :
      (e x : PersistedEvent E) (xs : List (PersistedEvent E))
      → Memᴰ e (x ∷ xs)
      → Memᴰ e (insert_by_id x xs)
  mem-insert e x [] m = m
  mem-insert e x (y ∷ ys) m = elim (Bool-cases (ltb x.id y.id)) [
    | inl before ↦ rw before m
    | inr n ↦ rw n (elim (cases_cons m) [
      | inl same ↦ Memᴰ.tail (mem-insert e x ys (Memᴰ.head same))
      | inr later ↦ elim (cases_cons later) [
        | inl same ↦ Memᴰ.head same
        | inr after ↦ Memᴰ.tail (mem-insert e x ys (Memᴰ.tail after))
      ]
    ])
  ]

  pub mem-order :
      (e : PersistedEvent E) (xs : List (PersistedEvent E)) → Memᴰ e xs → Memᴰ e (order_by_id xs)
  mem-order e [] m = elim m [ ]
  mem-order e (x ∷ xs) (Memᴰ.head same) = mem-insert e x (order_by_id xs) (Memᴰ.head same)
  mem-order e (x ∷ xs) (Memᴰ.tail later) =
      mem-insert e x (order_by_id xs) (Memᴰ.tail (mem-order e xs later))

  pub mem-Increasing :
      (lo : EventId) (xs : List (PersistedEvent E)) (e : PersistedEvent E)
      → Increasing lo xs
      → Memᴰ e xs
      → lo < e.id
  mem-Increasing lo [] e h m = elim m [ ]
  mem-Increasing lo (x ∷ xs) e h (Memᴰ.head same) = rw same h.0
  mem-Increasing lo (x ∷ xs) e h (Memᴰ.tail later) =
      omega (arith, h.0, mem-Increasing x.id xs e h.1 later)
