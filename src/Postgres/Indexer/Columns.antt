-- ===== src/Postgres/Indexer/Columns.antt =====
-- About the columns that disintegrate-postgres/src/listener/id_indexer.rs fills.
use mathlib.Core.List.{Memᴰ}
use disintegrate.Prelude.{
  ℕ, ◌≡◌, refl, ◌<◌, String, Bool, true, false, none, some, List, [], ◌∷◌, map, eqb, is_empty, All,
  All-weaken, arith, Bool-cases, inl, inr,
}
use disintegrate.Prelude.Result.{Result, ok, err}
use disintegrate.Identifier
use disintegrate.Identifier.{Identifier, IdentifierValue, DomainIdentifierSet}
use disintegrate.Event.{EventId, Event, PersistedEvent}
use disintegrate.EventStore.{Increasing}
use disintegrate.Postgres.Criteria.Rows.{Row}
use disintegrate.Postgres.Listener.{handle_stream}
use disintegrate.Postgres.Listener.Progress.{handle_each}
use disintegrate.Postgres.Reading.Delivery.{Increasing-above}
use disintegrate.Postgres.Reading.Members.{mem-Increasing}
use disintegrate.Postgres.Indexer.{or_else, index_row, execute_update, id_indexer}

mem-map : (f : Row → Row) (r : Row) (rows : List Row) → Memᴰ r rows → Memᴰ (f r) (map f rows)
mem-map f r [] m = elim m [ ]
mem-map f r (x ∷ rows) (Memᴰ.head same) = rw same (Memᴰ.head refl)
mem-map f r (x ∷ rows) (Memᴰ.tail later) = Memᴰ.tail (mem-map f r rows later)

module _ {E : Type 0} (ev : Event E) (id : String) where
  -- A step of the indexer that succeeds writes the row of its event.
  handle_each_inv :
      (rows rows' : List Row) (x : PersistedEvent E) (xs : List (PersistedEvent E))
      → handle_each (id_indexer ev id) rows (x ∷ xs) ≡ some rows'
      → handle_each
          (id_indexer ev id)
          (map (index_row x.id (ev.domain_identifiers x.event)) rows)
          xs
        ≡ some rows'
  unfolding id_indexer execute_update
  handle_each_inv rows rows' x xs h = elim (Bool-cases (is_empty (ev.domain_identifiers x.event))) [
    | inl y ↦ absurd (let left : none ≡ some rows' = rw y at h in cc left)
    | inr n ↦ rw n at h
  ]

  untouched :
      (r : Row) (rows rows' : List Row) (events : List (PersistedEvent E))
      → All (λ e. r.event_id < e.id) events
      → handle_each (id_indexer ev id) rows events ≡ some rows'
      → Memᴰ r rows
      → Memᴰ r rows'
  untouched r rows rows' [] above h m = let same : rows ≡ rows' = cc h in rw same at m
  untouched r rows rows' (x ∷ xs) above h m =
      let here = mem-map (index_row x.id (ev.domain_identifiers x.event)) r rows m in
      let other : eqb r.event_id x.id ≡ false = let lt = above.0 in ground arith in
      untouched r (map (index_row x.id (ev.domain_identifiers x.event)) rows) rows' xs above.1
        (handle_each_inv rows rows' x xs h) (rw other at here)

  -- The row after its event is indexed: what the event declares is in the columns, and a column of
  -- which it declares nothing is as it was.
  pub record IsIndexed (e : PersistedEvent E) (r r' : Row) : Type 0 where
    pub same_id : r'.event_id ≡ r.event_id
    pub same_type : r'.event_type ≡ r.event_type
    pub columns :
        (k : Identifier)
        → r'.column k ≡ or_else (Identifier.get (ev.domain_identifiers e.event) k) (r.column k)

  index_row-IsIndexed :
      (e : PersistedEvent E) (r : Row)
      → r.event_id ≡ e.id
      → IsIndexed e r (index_row e.id (ev.domain_identifiers e.event) r)
  index_row-IsIndexed e r is =
      let here : eqb r.event_id e.id ≡ true = ground arith in
      rw here (record { same_id = refl; same_type = refl; columns = λ k. refl })

  -- When a run of the indexer has handled events with rising ids and no error, the row of each of them
  -- has the event's identifiers in its columns and is otherwise as before.
  pub handle_each-IsIndexed :
      (rows rows' : List Row) (lo : EventId) (events : List (PersistedEvent E))
      (e : PersistedEvent E) (r : Row)
      → handle_each (id_indexer ev id) rows events ≡ some rows'
      → Increasing lo events
      → Memᴰ e events
      → Memᴰ r rows
      → r.event_id ≡ e.id
      → (r' : Row) × Memᴰ r' rows' × IsIndexed e r r'
  handle_each-IsIndexed rows rows' lo [] e r h inc me mr is = elim me [ ]
  handle_each-IsIndexed rows rows' lo (x ∷ xs) e r h inc (Memᴰ.head same) mr is =
      let set = index_row e.id (ev.domain_identifiers e.event) in
      let indexed = index_row-IsIndexed e r is in
      let above : All (λ f. (set r).event_id < f.id) xs =
        All-weaken _ _ xs
          (λ f lt. let lt' : e.id < f.id = rw same lt in omega (arith, indexed.same_id, is, lt'))
          (Increasing-above x.id xs inc.1) in
      let rest = handle_each_inv rows rows' x xs h in
      (
        set r,
        untouched (set r) (map set rows) rows' xs above (rw (← same) at rest)
            (mem-map set r rows mr),
        indexed,
      )
  handle_each-IsIndexed rows rows' lo (x ∷ xs) e r h inc (Memᴰ.tail later) mr is =
      let before : x.id < e.id = mem-Increasing x.id xs e inc.1 later in
      let other : eqb r.event_id x.id ≡ false = ground arith in
      let here = mem-map (index_row x.id (ev.domain_identifiers x.event)) r rows mr in
      handle_each-IsIndexed (map (index_row x.id (ev.domain_identifiers x.event)) rows) rows' x.id
        xs e r (handle_each_inv rows rows' x xs h) inc.1 later (rw other at here) is

  -- At an event without identifiers every run of the indexer ends with an error and leaves the rows and
  -- the cursor where they are.
  handle_stream_stuck :
      {X : Type 0} (is_cancelled : ℕ → Bool) (rows : List Row) (last : EventId) (n : ℕ)
      (e : PersistedEvent E) (items : List (Result (PersistedEvent E) X))
      → ev.domain_identifiers e.event ≡ []
      → handle_stream (id_indexer ev id) is_cancelled rows last n (ok e ∷ items)
        ≡ (rows, err (record { last_processed_event_id = last }))
  unfolding handle_stream id_indexer execute_update
  handle_stream_stuck is_cancelled rows last n e items h = rw h refl
