-- ===== src/Postgres/Append.antt =====
-- Appending to the PostgreSQL event store: disintegrate-postgres/src/event_store.rs, with the rows
-- that disintegrate-postgres/src/event_store/append.rs inserts and the tables of
-- disintegrate-postgres/src/event_store/sql. An SQL statement is one step on the tables.
pub mod Rows
pub mod Validity
pub mod Validation
use disintegrate.Prelude.{
  ℕ, ◌+◌, Bool, true, false, not, ◌&&◌, ◌||◌, Option, none, some, List, [], ◌∷◌, ◌++◌, map, any,
  all, eqb, ◌>>=◌, leb, if◌then◌else◌, is_empty,
}
use disintegrate.Prelude.Result.{Result, ok, err, panicked}
use disintegrate.Event.{EventId, EventSchema, Event, PersistedEvent}
use disintegrate.Stream.Query
use disintegrate.Stream.Query.{StreamQuery}
use disintegrate.Postgres.Criteria.{TypeTest, Group, groups}
use disintegrate.Postgres.Criteria.Rows.{Row, holds, row_of}
use disintegrate.Postgres.Criteria.Text.{is_plain_test}

-- disintegrate-postgres/src/error.rs
pub data Error : Type 0 where
  database deserialization append_permit query_event_mapping concurrency : Error

-- A row of `event_sequence`.
pub record SequenceRow : Type 0 where
  pub row : Row
  pub consumed : ℕ
  pub committed : Bool

-- The two tables, and the next id of the identity column of `event_sequence`.
pub record Database (E : Type 0) : Type 0 where
  pub next_id : EventId
  pub event_sequence : List SequenceRow
  pub event : List (PersistedEvent E)

abbrev pub has_id : List EventId → EventId → Bool
has_id ids id = any (λ i. eqb i id) ids

-- `InsertEventSequenceBuilder::new(&event)` and its execution on the pool, with the `consumed`
-- flag of `with_consumed`: the row gets the next id and is visible at once.
unfoldable pub stage : {E : Type 0} → Event E → ℕ → Database E → E → Database E × PersistedEvent E
stage ev consumed db event =
    let e : PersistedEvent _ = record { id = db.next_id; event = event } in
    (
      record db {
        next_id = db.next_id + 1;
        event_sequence =
            db.event_sequence
            ++ (record { row = row_of ev e; consumed = consumed; committed = false }) ∷ [];
      },
      e,
    )

-- `for event in events { ... persisted_events.push(...) }`
unfoldable pub stage_all :
    {E : Type 0} → Event E → ℕ → Database E → List E → Database E × List (PersistedEvent E)
unfolding stage
stage_all ev consumed db [] = (db, [])
stage_all ev consumed db (event ∷ events) =
    let (db', e) = stage ev consumed db event in
    let (db'', es) = stage_all ev consumed db' events in (db'', e ∷ es)

-- The text of the criteria is an SQL expression: no part of it is empty, and no literal holds a quote.
-- What the database makes of a quote is not modelled further: it is an error here, and the theorems about
-- what a query selects are those of queries without one.
abbrev pub has_text : Option EventId → List TypeTest → Bool
has_text none [] = false
has_text none (t ∷ ts) = true
has_text (some origin) tests = true

abbrev pub parses : List Group → Bool
parses gs = not (is_empty gs) && all (λ g. has_text g.after g.tests && all is_plain_test g.tests) gs

abbrev pub is_true : Option Bool → Bool
is_true none = false
is_true (some b) = b

module _ (ids : List EventId) (last_event_id : EventId) (gs : List Group) where
  -- The rows that the `UPDATE` joins with: its own, and those not yet lost that the criteria select.
  abbrev pub is_updated : SequenceRow → Bool
  is_updated r =
      has_id ids r.row.event_id
      || ((eqb r.consumed 0 || r.committed)
          && (leb r.row.event_id last_event_id && is_true (holds r.row gs)))

  -- `SET consumed = consumed + 1, committed = (es.event_id = ANY($1))`
  abbrev pub consume : SequenceRow → SequenceRow
  consume r = record r { consumed = r.consumed + 1; committed = has_id ids r.row.event_id }

  -- The `UPDATE`; `none` is the violation of `check (consumed <= 1)` at some row.
  unfoldable pub update_rows : List SequenceRow → Option (List SequenceRow)
  update_rows [] = some []
  update_rows (r ∷ rows) = do
    row ←
        (if is_updated r
          then (if leb (r.consumed + 1) 1 then some (consume r) else none)
          else some r)
    rest ← update_rows rows
    some (row ∷ rest)

-- `persisted_events_ids.last()`
abbrev pub last_id : {E : Type 0} → EventId → List (PersistedEvent E) → EventId
last_id id [] = id
last_id id (e ∷ es) = last_id e.id es

abbrev pub ids_of : {E : Type 0} → List (PersistedEvent E) → List EventId
ids_of es = map (λ e. e.id) es

-- The transaction of an append from the `UPDATE` on: a failed statement rolls it back, and
-- `map_concurrency_err` reports the violated check as a concurrent modification.
unfoldable pub finish :
    {E : Type 0}
    → Database E
    → List (PersistedEvent E)
    → List Group
    → Database E × Result (List (PersistedEvent E)) Error
unfolding update_rows
finish db es gs =
    if parses gs
    then elim (update_rows (ids_of es) (last_id 0 es) gs db.event_sequence) [
      | none ↦ (db, err concurrency)
      | some rows ↦ (record db { event_sequence = rows; event = db.event ++ es }, ok es)
    ]
    else (db, err database)

module _ {E : Type 0} (ev : Event E) where
  abbrev finish_with :
      Database E
      → List (PersistedEvent E)
      → Option (List Group)
      → Database E × Result (List (PersistedEvent E)) Error
  finish_with db es none = (db, panicked)
  finish_with db es (some gs) = finish db es gs

  -- `append`, for a query over the event type with the given schema. `between` is what other
  -- clients do to the tables after the ids are staged and before the `UPDATE` runs.
  unfoldable pub append :
      EventSchema
      → (Database E → Database E)
      → Database E
      → List E
      → StreamQuery
      → EventId
      → Database E × Result (List (PersistedEvent E)) Error
  unfolding stage_all finish
  append schema between db events query version =
      let (staged, es) = stage_all ev 0 db events in
      if is_empty es
      then (staged, ok [])
      else finish_with (between staged) es
          (groups schema (Query.change_origin version query).filters)

  abbrev pub commit_row : List EventId → SequenceRow → SequenceRow
  commit_row ids r = if has_id ids r.row.event_id then record r { committed = true } else r

  -- `append_without_validation`. `InsertEventsBuilder::build` panics when there is no event.
  unfoldable pub append_without_validation :
      Database E → List E → Database E × Result (List (PersistedEvent E)) Error
  unfolding stage_all
  append_without_validation db events =
      let (staged, es) = stage_all ev 1 db events in
      if is_empty es then (staged, panicked) else (
        record staged {
          event_sequence = map (commit_row (ids_of es)) staged.event_sequence;
          event = staged.event ++ es;
        },
        ok es,
      )
