-- ===== src/Postgres/Listener.antt =====
-- The event listener of disintegrate-postgres/src/listener.rs: one executor and its row in the table
-- `event_listener`. The tasks, the poll timer and the notifications only decide when it runs.
pub mod Progress
pub mod Tasks
use disintegrate.Prelude.{
  ℕ, zero, suc, ◌+◌, String, Bool, true, false, not, ◌&&◌, Option, none, some, List, [], ◌∷◌, ◌==◌,
  if◌then◌else◌,
}
use disintegrate.Prelude.Result.{Result, ok, err, panicked}
use disintegrate.Event.{EventId, PersistedEvent}
use disintegrate.Stream.Query
use disintegrate.Stream.Query.{StreamQuery}
use disintegrate.EventStore.{EventStore}

-- The trait `EventListener` of disintegrate/src/listener.rs. `W` is the world that the handler
-- changes; `false` is a handler's error.
pub record EventListener (W E : Type 0) : Type 0 where
  pub id : String
  pub query : StreamQuery
  pub handle : W → PersistedEvent E → W × Bool

pub record PgEventListenerError : Type 0 where
  pub last_processed_event_id : EventId

abbrev pub take {ℓ} : {A : Type ℓ} → ℕ → List A → List A
take zero xs = []
take (suc n) [] = []
take (suc n) (x ∷ xs) = x ∷ take n xs

module _ {W E X : Type 0} (l : EventListener W E) (is_cancelled : ℕ → Bool) where
  -- The `while let` of `handle_events_from`; `is_cancelled k` is what the shutdown token says after
  -- the event `k` of the run.
  unfoldable pub handle_stream :
      W → EventId → ℕ → List (Result (PersistedEvent E) X) → W × Result EventId PgEventListenerError
  handle_stream w last k [] = (w, ok last)
  handle_stream w last k (err x ∷ items) = (w, err (record { last_processed_event_id = last }))
  handle_stream w last k (panicked ∷ items) = (w, panicked)
  handle_stream w last k (ok event ∷ items) =
      let w' = (l.handle w event).0 in
      let rest = handle_stream w' event.id (k + 1) items in
      if (l.handle w event).1
      then (if is_cancelled k then (w', ok event.id) else rest)
      else (w', err (record { last_processed_event_id = last }))

  unfoldable pub handle_events_from :
      {St : Type 0}
      → EventStore St E X
      → St
      → ℕ
      → W
      → EventId
      → W × Result EventId PgEventListenerError
  unfolding handle_stream
  handle_events_from es st fetch_size w last =
      handle_stream w last 0 (take fetch_size (es.stream st (Query.change_origin last l.query)))

-- A row of `event_listener`; `locked` by another executor.
pub record ListenerRow : Type 0 where
  pub id : String
  pub last_processed_event_id : EventId
  pub locked : Bool

-- `SELECT ... WHERE id = $1 FOR UPDATE SKIP LOCKED`
unfoldable pub lock_event_listener : String → List ListenerRow → Option EventId
lock_event_listener id [] = none
lock_event_listener id (r ∷ rows) =
    if r.id == id
    then (if r.locked then none else some r.last_processed_event_id)
    else lock_event_listener id rows

-- `UPDATE event_listener SET last_processed_event_id = $1 WHERE id = $2`
unfoldable pub set_last_processed : String → EventId → List ListenerRow → List ListenerRow
set_last_processed id last [] = []
set_last_processed id last (r ∷ rows) =
    (if r.id == id then record r { last_processed_event_id = last } else r)
    ∷ set_last_processed id last rows

-- `release_event_listener`; a panic of the run drops the transaction instead.
unfoldable pub release_event_listener :
    String → Result EventId PgEventListenerError → List ListenerRow → List ListenerRow
unfolding set_last_processed
release_event_listener id (ok last) rows = set_last_processed id last rows
release_event_listener id (err e) rows = set_last_processed id e.last_processed_event_id rows
release_event_listener id panicked rows = rows

-- `init`: `INSERT ... VALUES ($1, 0) ON CONFLICT (id) DO NOTHING`
unfoldable pub init : String → List ListenerRow → List ListenerRow
init id [] = record { id = id; last_processed_event_id = 0; locked = false } ∷ []
init id (r ∷ rows) = if r.id == id then r ∷ rows else r ∷ init id rows

module _ {W E X St : Type 0} (l : EventListener W E) (is_cancelled : ℕ → Bool)
    (es : EventStore St E X) where
  abbrev run_from : St → ℕ → W → List ListenerRow → Option EventId → W × List ListenerRow
  run_from st fetch_size w rows none = (w, rows)
  run_from st fetch_size w rows (some last) =
      let (w', result) = handle_events_from l is_cancelled es st fetch_size w last in
      (w', release_event_listener l.id result rows)

  -- `try_execute`, with no fault of the database connection.
  unfoldable pub try_execute : St → ℕ → W → List ListenerRow → W × List ListenerRow
  unfolding lock_event_listener handle_events_from release_event_listener
  try_execute st fetch_size w rows = run_from st fetch_size w rows (lock_event_listener l.id rows)

-- The kinds of `sqlx::Error` that `execute` tells apart.
pub data SqlxError : Type 0 where
  io pool_timed_out other : SqlxError

-- `execute`: a run that could not reach the database is tried again at the next tick.
unfoldable pub execute : Result (Unit {0}) SqlxError → Result (Unit {0}) SqlxError
execute (err SqlxError.io) = ok tt
execute (err SqlxError.pool_timed_out) = ok tt
execute (err SqlxError.other) = err SqlxError.other
execute (ok u) = ok u
execute panicked = panicked

-- `ExecutorWaker::wake`: whether a notification with the name of an event wakes the executor.
unfoldable pub wake : StreamQuery → String → Bool
wake q event = Query.matches_event q event
