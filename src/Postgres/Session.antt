-- ===== src/Postgres/Session.antt =====
-- Clients that append to the PostgreSQL store at the same time: the statements of the two appends of
-- disintegrate-postgres/src/event_store.rs, each a step of its client, in any order, with the epochs
-- of disintegrate-postgres/src/event_store/sql/fn_event_store_begin_epoch.sql and
-- fn_event_store_current_epoch.sql. A row is visible when its id is taken, and the flags that an
-- `UPDATE` writes are seen at once, since the rows stay locked until the commit.
pub mod Keeps
pub mod Served
pub mod Kept
pub mod Batches
pub mod Effects
pub mod Consistent
pub mod Epoch
pub mod Advance
pub mod Single
pub mod Locks
pub mod Drain
pub mod Sequential
pub mod Guard
pub mod Validated
use Prim.Native.Nat.{max, min}
use disintegrate.Prelude.{
  ℕ, zero, suc, ◌+◌, Bool, true, false, not, ◌&&◌, Option, none, some, List, [], ◌∷◌, ◌++◌, map,
  is_empty, if◌then◌else◌,
}
use disintegrate.Event.{EventId, Event, PersistedEvent}
use disintegrate.Postgres.Criteria.{Group}
use disintegrate.Postgres.Append.{
  SequenceRow, Database, stage, update_rows, parses, ids_of, last_id, commit_row,
}

-- A client, with the id that its epoch holds locked and the events that it has staged: in `append` up
-- to the `UPDATE`, after it, and after the events are inserted; and in `append_without_validation`.
pub data Client (E : Type 0) : Type 0 where
  ready : Client E
  staging : (epoch : EventId) (staged : List (PersistedEvent E)) → Client E
  updated : (epoch : EventId) (staged : List (PersistedEvent E)) → Client E
  inserted : (epoch : EventId) → Client E
  batching : (epoch : EventId) (staged : List (PersistedEvent E)) → Client E

pub record World (E : Type 0) : Type 0 where
  pub db : Database E
  pub clients : List (Client E)

pub data Action (E : Type 0) : Type 0 where
  begin : Action E
  stages : E → Action E
  updates : List Group → Action E
  inserts : Action E
  commits : Action E
  begin_batch : Action E
  stages_batch : E → Action E
  commits_batch : Action E
  quits : Action E

-- `SELECT COALESCE(MAX(event_id), 0) FROM event`
abbrev pub max_id : {E : Type 0} → List (PersistedEvent E) → EventId
max_id [] = 0
max_id (e ∷ es) = max e.id (max_id es)

module _ {E : Type 0} (ev : Event E) where
  -- A conflict rolls the transaction back.
  abbrev pub updates_to :
      Database E
      → EventId
      → List (PersistedEvent E)
      → Option (List SequenceRow)
      → Database E × Client E
  updates_to db epoch es none = (db, ready)
  updates_to db epoch es (some rows) = (record db { event_sequence = rows }, updated epoch es)

  -- `append` returns before the `UPDATE` if there is no event, and fails at criteria that do not parse.
  abbrev pub is_checked : List Group → List (PersistedEvent E) → Bool
  is_checked gs es = not (is_empty es) && parses gs

  -- What an action does to the tables and to its client; one that is not its turn does nothing.
  unfoldable pub effect : Action E → Database E → Client E → Database E × Client E
  unfolding stage update_rows
  effect begin db ready = (db, staging (max_id db.event) [])
  effect (stages event) db (staging epoch es) =
      let (db', e) = stage ev 0 db event in (db', staging epoch (es ++ e ∷ []))
  effect (updates gs) db (staging epoch es) =
      if is_checked gs es
      then updates_to db epoch es (update_rows (ids_of es) (last_id 0 es) gs db.event_sequence)
      else (db, ready)
  effect inserts db (updated epoch es) = (record db { event = db.event ++ es }, inserted epoch)
  effect commits db (inserted epoch) = (db, ready)
  effect begin_batch db ready = (db, batching (max_id db.event) [])
  effect (stages_batch event) db (batching epoch es) =
      let (db', e) = stage ev 1 db event in (db', batching epoch (es ++ e ∷ []))
  effect commits_batch db (batching epoch es) = (
    record db {
      event_sequence = map (commit_row ev (ids_of es)) db.event_sequence;
      event = db.event ++ es;
    },
    ready,
  )
  effect quits db (staging epoch es) = (db, ready)
  effect quits db (batching epoch es) = (db, ready)
  effect _ db c = (db, c)

  -- The step of the client with the index, if there is one, on the tables and all the clients.
  unfoldable pub step_at :
      ℕ → Action E → Database E → List (Client E) → Database E × List (Client E)
  unfolding effect
  step_at i a db [] = (db, [])
  step_at zero a db (c ∷ cs) = let (db', c') = effect a db c in (db', c' ∷ cs)
  step_at (suc i) a db (c ∷ cs) = let (db', cs') = step_at i a db cs in (db', c ∷ cs')

  unfoldable pub step : World E → ℕ × Action E → World E
  unfolding step_at
  step w (i, a) = let (db', cs') = step_at i a w.db w.clients in record { db = db'; clients = cs' }

  unfoldable pub run : World E → List (ℕ × Action E) → World E
  unfolding step
  run w [] = w
  run w (a ∷ actions) = run (step w a) actions

-- The lock that `event_store_begin_epoch` took, until its transaction ends.
abbrev pub lock : {E : Type 0} → Client E → Option EventId
lock ready = none
lock (staging epoch es) = some epoch
lock (updated epoch es) = some epoch
lock (inserted epoch) = some epoch
lock (batching epoch es) = some epoch

abbrev pub least : Option EventId → Option EventId → Option EventId
least none b = b
least (some a) none = some a
least (some a) (some b) = some (min a b)

-- `SELECT MIN(...) FROM pg_locks`
abbrev pub pending : {E : Type 0} → List (Client E) → Option EventId
pending [] = none
pending (c ∷ cs) = least (lock c) (pending cs)

abbrev coalesce : Option EventId → EventId → EventId
coalesce none b = b
coalesce (some a) b = a

-- `event_store_current_epoch()`
unfoldable pub current_epoch : {E : Type 0} → World E → EventId
current_epoch w = coalesce (pending w.clients) (max_id w.db.event)
