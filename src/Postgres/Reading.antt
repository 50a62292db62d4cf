-- ===== src/Postgres/Reading.antt =====
-- Reading the PostgreSQL event store: `stream` of disintegrate-postgres/src/event_store.rs. The epoch
-- is read by one statement and the events by a second one, so the tables may have changed between.
pub mod Order
pub mod Delivery
pub mod Members
pub mod Handled
pub mod Cursor
use disintegrate.Prelude.{
  Bool, ◌&&◌, Option, none, some, List, [], ◌∷◌, filter, ltb, leb, if◌then◌else◌,
}
use disintegrate.Prelude.Result.{Result, ok, err, panicked}
use disintegrate.Event.{EventId, EventSchema, Event, PersistedEvent}
use disintegrate.Stream.Query.{StreamQuery}
use disintegrate.Postgres.Criteria.{Group, groups}
use disintegrate.Postgres.Criteria.Rows.{holds, row_of}
use disintegrate.Postgres.Append.{
  Error, Database, is_true, parses, append, append_without_validation,
}
use disintegrate.Postgres.Session.{World, current_epoch}
use disintegrate.EventStore.{EventStore}

abbrev pub insert_by_id :
    {E : Type 0} → PersistedEvent E → List (PersistedEvent E) → List (PersistedEvent E)
insert_by_id e [] = e ∷ []
insert_by_id e (x ∷ xs) =
    let rest = insert_by_id e xs in if ltb e.id x.id then e ∷ x ∷ xs else x ∷ rest

-- `ORDER BY event_id ASC`
abbrev pub order_by_id : {E : Type 0} → List (PersistedEvent E) → List (PersistedEvent E)
order_by_id [] = []
order_by_id (e ∷ es) = insert_by_id e (order_by_id es)

module _ {E Q : Type 0} (ev : Event E) (schema : EventSchema) (try_into : E → Option Q) where
  abbrev pub is_selected : EventId → List Group → PersistedEvent E → Bool
  is_selected epoch gs e = leb e.id epoch && is_true (holds (row_of ev e) gs)

  abbrev deliver_next :
      EventId
      → Option Q
      → List (Result (PersistedEvent Q) Error)
      → List (Result (PersistedEvent Q) Error)
  deliver_next id none rest = err Error.query_event_mapping ∷ []
  deliver_next id (some event) rest = ok (record { id = id; event = event }) ∷ rest

  -- The rows of the result, up to the first event that is not one of the query's type.
  abbrev pub deliver : List (PersistedEvent E) → List (Result (PersistedEvent Q) Error)
  deliver [] = []
  deliver (e ∷ es) = deliver_next e.id (try_into e.event) (deliver es)

  abbrev select :
      EventId → Database E → Option (List Group) → List (Result (PersistedEvent Q) Error)
  select epoch db none = panicked ∷ []
  select epoch db (some gs) =
      if parses gs
      then deliver (order_by_id (filter (is_selected epoch gs) db.event))
      else err Error.database ∷ []

  -- `stream`: what it reads from the tables with the epoch that it has read before; `schema` is that of
  -- the query's event type.
  unfoldable pub stream :
      EventId → Database E → StreamQuery → List (Result (PersistedEvent Q) Error)
  stream epoch db query = select epoch db (groups schema query.filters)

-- The backend as an event store. `between` is what other clients do after a stream has read the epoch
-- and before it reads the events; none acts during an append.
abbrev pub pg_event_store :
    {E : Type 0} → Event E → EventSchema → (World E → World E) → EventStore (World E) E Error
pg_event_store ev schema between = record {
  stream = λ w query. stream ev schema some (current_epoch w) (between w).db query;
  append = λ w events query version.
      let (db, result) = append ev schema (λ db. db) w.db events query version in
      (record w { db = db }, result);
  append_without_validation = λ w events.
      let (db, result) = append_without_validation ev w.db events in (record w { db = db }, result);
}
