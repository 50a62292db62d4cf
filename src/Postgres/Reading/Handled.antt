-- ===== src/Postgres/Reading/Handled.antt =====
-- About the events that a run of disintegrate-postgres/src/listener.rs has handled.
use mathlib.Core.List.{Memᴰ}
use disintegrate.Prelude.{
  ℕ, zero, suc, ◌≤◌, ◌<◌, ◌≡◌, refl, ap, ◌∙◌, List, [], ◌∷◌, ◌++◌, map, leb, All, arith, inl, inr,
  ◌⊎◌,
}
use disintegrate.Prelude.Result.{Result, ok, panicked}
use disintegrate.Event.{EventId, Event, PersistedEvent}
use disintegrate.EventStore.{Increasing}
use disintegrate.Postgres.Append.{Error, last_id}
use disintegrate.Postgres.Session.{World, Action, run, current_epoch}
use disintegrate.Postgres.Session.Consistent.{IsConsistent}
use disintegrate.Postgres.Session.Epoch.{up_to, run-up_to}
use disintegrate.Postgres.Listener.{PgEventListenerError, take}
use disintegrate.Postgres.Listener.Progress.{cursor}
use disintegrate.Postgres.Reading.Members.{mem-filter, mem-order, mem-Increasing}
use disintegrate.Postgres.Reading.Delivery.{log}

module _ {E : Type 0} where
  -- The part of a stream that is handled has every event up to its last one.
  pub mem-handled :
      (lo last : EventId) (events done : List (PersistedEvent E))
      (rest : List (Result (PersistedEvent E) Error)) (e : PersistedEvent E)
      → map ok events ≡ map ok done ++ rest
      → Increasing lo events
      → Memᴰ e events
      → last < e.id
      → e.id ≤ last_id last done
      → Memᴰ e done
  mem-handled lo last events [] rest e shape inc m after le = absurd (omega (arith, after, le))
  mem-handled lo last [] (d ∷ ds) rest e shape inc m after le = elim m [ ]
  mem-handled lo last (x ∷ xs) (d ∷ ds) rest e shape inc (Memᴰ.head is) after le =
      let same : x ≡ d = cc shape in Memᴰ.head (is ∙ same)
  mem-handled lo last (x ∷ xs) (d ∷ ds) rest e shape inc (Memᴰ.tail later) after le =
      let same : x ≡ d = cc shape in
      let goes_on : map ok xs ≡ map ok ds ++ rest = cc shape in
      let before : x.id < e.id = mem-Increasing x.id xs e inc.1 later in
      Memᴰ.tail (mem-handled x.id d.id xs ds rest e goes_on inc.1 later (rw same at before) le)

  last-upto :
      (n last : EventId) (events done : List (PersistedEvent E))
      (rest : List (Result (PersistedEvent E) Error))
      → map ok events ≡ map ok done ++ rest
      → All (λ e. e.id ≤ n) events
      → last ≤ n
      → last_id last done ≤ n
  last-upto n last events [] rest shape h le = le
  last-upto n last [] (d ∷ ds) rest shape h le = absurd (cc shape)
  last-upto n last (x ∷ xs) (d ∷ ds) rest shape h le =
      let same : x ≡ d = cc shape in
      let goes_on : map ok xs ≡ map ok ds ++ rest = cc shape in
      last-upto n d.id xs ds rest goes_on h.1 (rw same at h.0)

module _ {E : Type 0} where
  -- An event up to the cursor is not after the last one that is delivered.
  pub handled-upto :
      (n last : EventId) (events done : List (PersistedEvent E))
      (rest : List (Result (PersistedEvent E) Error)) (e : PersistedEvent E)
      → map ok events ≡ map ok done ++ rest
      → All (λ e. e.id ≤ n) events
      → last < e.id
      → e.id ≤ last_id last done
      → e.id ≤ n
  handled-upto n last events [] rest e shape h after le = absurd (omega (arith, after, le))
  handled-upto n last [] (d ∷ ds) rest e shape h after le = absurd (cc shape)
  handled-upto n last (x ∷ xs) (d ∷ ds) rest e shape h after le =
      let same : x ≡ d = cc shape in
      let goes_on : map ok xs ≡ map ok ds ++ rest = cc shape in
      omega (arith, le, last-upto n d.id xs ds rest goes_on h.1 (rw same at h.0))

  -- An event of a later table is in the log, if the epoch has passed it.
  pub mem-log :
      (ev : Event E) (w : World E) (actions : List (ℕ × Action E)) (e : PersistedEvent E)
      → IsConsistent ev w.db w.clients
      → e.id ≤ current_epoch w
      → Memᴰ e (run ev w actions).db.event
      → Memᴰ e (log w)
  mem-log ev w actions e c le m =
      let n = current_epoch w in
      let passed : Memᴰ e (up_to n (run ev w actions).db.event) =
        mem-filter (λ e. leb e.id n) e (run ev w actions).db.event (ground arith) m in
      mem-order e (up_to n w.db.event) (rw (run-up_to ev w actions c) at passed)

pub cursor-reached :
    {E : Type 0} (last : EventId) (e : PersistedEvent E)
    (result : Result EventId PgEventListenerError) (done : List (PersistedEvent E))
    → (result ≡ panicked) ⊎ (cursor last result ≡ last_id last done)
    → last < e.id
    → e.id ≤ cursor last result
    → e.id ≤ last_id last done
cursor-reached last e result done (inl stopped) after le =
    absurd (omega (arith, after, rw stopped at le))
cursor-reached last e result done (inr reached) after le = rw reached at le

pub take_rest : {A : Type 0} (k : ℕ) (xs : List A) → (rest : List A) × (xs ≡ take k xs ++ rest)
take_rest zero xs = (xs, refl)
take_rest (suc k) [] = ([], refl)
take_rest (suc k) (x ∷ xs) = let (rest, shape) = take_rest k xs in (rest, ap (◌∷◌ x) shape)
