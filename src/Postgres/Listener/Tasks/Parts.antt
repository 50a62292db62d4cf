-- ===== src/Postgres/Listener/Tasks/Parts.antt =====
-- Parts of the stream of a listener of disintegrate-postgres/src/listener.rs, and the cursor between them.
use disintegrate.Prelude.{
  ℕ, zero, suc, ◌+◌, ◌≡◌, refl, ap, ◌≤◌, some, List, [], ◌∷◌, ◌++◌, map, filter, length, String,
  ltb, arith, ◌>>=◌, Bool-cases, inl, inr,
}
use disintegrate.Event.{EventId, PersistedEvent}
use disintegrate.EventStore.{Increasing}
use disintegrate.Postgres.Append.{last_id}
use disintegrate.Postgres.Listener.{
  EventListener, ListenerRow, take, lock_event_listener, set_last_processed,
}
use disintegrate.Postgres.Listener.Progress.{handle_each}

abbrev pub drop {ℓ} : {A : Type ℓ} → ℕ → List A → List A
drop zero xs = xs
drop (suc n) [] = []
drop (suc n) (x ∷ xs) = drop n xs

pub take-drop {ℓ} : {A : Type ℓ} (n : ℕ) (xs : List A) → take n xs ++ drop n xs ≡ xs
take-drop zero xs = refl
take-drop (suc n) [] = refl
take-drop (suc n) (x ∷ xs) = ap (λ l. x ∷ l) (take-drop n xs)

pub length-drop {ℓ} :
    {A : Type ℓ} (n m : ℕ) (xs : List A) → length xs ≤ n + m → length (drop n xs) ≤ m
length-drop zero m xs h = omega (arith, h)
length-drop (suc n) m [] h = omega arith
length-drop (suc n) m (x ∷ xs) h = length-drop n m xs (omega (arith, h))

pub take-map {ℓ} :
    {A B : Type ℓ} (f : A → B) (n : ℕ) (xs : List A) → take n (map f xs) ≡ map f (take n xs)
take-map f zero xs = refl
take-map f (suc n) [] = refl
take-map f (suc n) (x ∷ xs) = ap (λ l. f x ∷ l) (take-map f n xs)

pub last_id-append :
    {E : Type 0} (c : EventId) (xs ys : List (PersistedEvent E))
    → last_id c (xs ++ ys) ≡ last_id (last_id c xs) ys
last_id-append c [] ys = refl
last_id-append c (x ∷ xs) ys = last_id-append x.id xs ys

pub handle_each-append :
    {W E : Type 0} (l : EventListener W E) (w : W) (xs ys : List (PersistedEvent E))
    → handle_each l w (xs ++ ys) ≡ (handle_each l w xs >>= λ v. handle_each l v ys)
handle_each-append l w [] ys = refl
handle_each-append l w (x ∷ xs) ys = elim (Bool-cases (l.handle w x).1) [
  | inl y ↦ rw y (handle_each-append l (l.handle w x).0 xs ys)
  | inr n ↦ rw n refl
]

pub lock-set :
    (id : String) (c d : EventId) (rows : List ListenerRow)
    → lock_event_listener id rows ≡ some c
    → lock_event_listener id (set_last_processed id d rows) ≡ some d
unfolding lock_event_listener set_last_processed
lock-set id c d [] h = absurd (ground arith)
lock-set id c d (r ∷ rows) h = ground (arith, lock-set id c d rows)

module _ {E : Type 0} where
  above_none :
      (c : EventId) (xs : List (PersistedEvent E)) (d : EventId)
      → c ≤ d
      → Increasing d xs
      → filter (λ e. ltb c e.id) xs ≡ xs
  above_none c [] d le h = refl
  above_none c (x ∷ xs) d le h =
      ground (arith, above_none c xs x.id (omega (arith, le, h.0)) h.1, h.0)

  below_last :
      (lo : EventId) (xs ys : List (PersistedEvent E))
      → Increasing lo (xs ++ ys)
      → lo ≤ last_id lo xs
  below_last lo [] ys h = omega arith
  below_last lo (x ∷ xs) ys h = omega (arith, below_last x.id xs ys h.1, h.0)

  -- What is left after a first part of a list with increasing ids.
  pub above_first :
      (lo : EventId) (xs ys : List (PersistedEvent E))
      → Increasing lo (xs ++ ys)
      → filter (λ e. ltb (last_id lo xs) e.id) (xs ++ ys) ≡ ys
  above_first lo [] ys h = above_none lo ys lo (omega arith) h
  above_first lo (x ∷ xs) ys h =
      let reached = below_last x.id xs ys h.1 in ground (arith, above_first x.id xs ys h.1, reached)
