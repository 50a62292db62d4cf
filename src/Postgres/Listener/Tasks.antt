-- ===== src/Postgres/Listener/Tasks.antt =====
-- The tasks of disintegrate-postgres/src/listener.rs: the registration of listeners, their start, and the
-- loops that run them at the ticks of their timers and when they are notified, up to the shutdown.
pub mod Starting
pub mod Ends
pub mod Shutdown
pub mod Wakes
pub mod Parts
pub mod CatchUp
use disintegrate.Prelude.{
  ℕ, zero, suc, ◌+◌, ◌-◌, ◌^◌, String, Bool, true, false, Option, none, some, List, [], ◌∷◌, ◌++◌,
  if◌then◌else◌,
}
use disintegrate.Prelude.Result.{Result, ok, err, panicked}
use disintegrate.Event.{EventId}
use disintegrate.EventStore.{EventStore}
use disintegrate.Postgres.Listener.{
  EventListener, PgEventListenerError, ListenerRow, SqlxError, handle_events_from,
  lock_event_listener, release_event_listener, init, execute, wake,
}

pub record PgEventListenerConfig : Type 0 where
  pub poll : ℕ
  pub fetch_size : ℕ
  pub notifier_enabled : Bool

-- `usize::MAX` events are fetched at a time, and notifications are off.
unfoldable pub poller : ℕ → PgEventListenerConfig
poller poll = record { poll = poll; fetch_size = 2 ^ 64 - 1; notifier_enabled = false }

unfoldable pub fetch_size : ℕ → PgEventListenerConfig → PgEventListenerConfig
fetch_size size config = record config { fetch_size = size }

unfoldable pub with_notifier : PgEventListenerConfig → PgEventListenerConfig
with_notifier config = record config { notifier_enabled = true }

pub record PgEventListerExecutor (W E : Type 0) : Type 0 where
  pub event_handler : EventListener W E
  pub config : PgEventListenerConfig

pub record PgEventListener (W E : Type 0) : Type 0 where
  pub executors : List (PgEventListerExecutor W E)
  pub intialize : Bool

-- An executor that runs: whether its channel has a change that it has not seen, and the result of its
-- task once it has ended.
pub record Task (W E : Type 0) : Type 0 where
  pub executor : PgEventListerExecutor W E
  pub woken : Bool
  pub ended : Option (Result (Unit {0}) SqlxError)

-- What the tasks share: what the handlers change, the rows of the listeners, and the shutdown token.
pub record Process (W E : Type 0) : Type 0 where
  pub world : W
  pub rows : List ListenerRow
  pub cancelled : Bool
  pub tasks : List (Task W E)

-- Where the database fails a run: at its first statements, or when the cursor is written back.
pub data Fault : Type 0 where
  no_fault : Fault
  at_begin at_release : SqlxError → Fault

-- The branches of the `select!` of a task.
pub data Branch : Type 0 where
  changed tick shutdown : Branch

module _ {W E : Type 0} where
  unfoldable pub builder : PgEventListener W E
  builder = record { executors = []; intialize = true }

  unfoldable pub uninitialized : PgEventListener W E → PgEventListener W E
  uninitialized l = record l { intialize = false }

  unfoldable pub register_listener :
      PgEventListener W E → EventListener W E → PgEventListenerConfig → PgEventListener W E
  register_listener l event_listener config = record l {
    executors = l.executors ++ record { event_handler = event_listener; config = config } ∷ [];
  }

  -- `run` of an executor: its channel holds a value that counts as seen.
  unfoldable pub spawn : PgEventListerExecutor W E → Task W E
  spawn executor = record { executor = executor; woken = false; ended = none }

  -- The loop of `start`; an error of an `init` ends it, and the tasks spawned before go on.
  unfoldable pub launch :
      List (PgEventListerExecutor W E)
      → List (Option SqlxError)
      → Process W E
      → Process W E × Result (Unit {0}) SqlxError
  unfolding init spawn
  launch [] faults p = (p, ok tt)
  launch (x ∷ xs) (some fault ∷ faults) p = (p, err fault)
  launch (x ∷ xs) (none ∷ faults) p =
      launch xs faults
        (record p { rows = init x.event_handler.id p.rows; tasks = p.tasks ++ spawn x ∷ [] })
  launch (x ∷ xs) [] p =
      launch xs []
        (record p { rows = init x.event_handler.id p.rows; tasks = p.tasks ++ spawn x ∷ [] })

  -- `start` up to the point where it waits for the tasks. `setup` and `faults` are what the database
  -- answers to the statements of `setup` and of each `init`.
  unfoldable pub start :
      PgEventListener W E
      → Result (Unit {0}) SqlxError
      → List (Option SqlxError)
      → Process W E
      → Process W E × Result (Unit {0}) SqlxError
  unfolding launch
  start l (ok u) faults p = launch l.executors faults p
  start l (err x) faults p = if l.intialize then (p, err x) else launch l.executors faults p
  start l panicked faults p = if l.intialize then (p, panicked) else launch l.executors faults p

  -- A notification wakes the executors with a notifier whose query has the event.
  unfoldable pub wake_all : String → List (Task W E) → List (Task W E)
  unfolding wake
  wake_all event [] = []
  wake_all event (t ∷ ts) =
      (if t.executor.config.notifier_enabled
        then (if wake t.executor.event_handler.query event then record t { woken = true } else t)
        else t)
      ∷ wake_all event ts

-- `self.execute().await?`: an error ends the task.
abbrev pub end_of : Result (Unit {0}) SqlxError → Option (Result (Unit {0}) SqlxError)
end_of (ok u) = none
end_of (err x) = some (err x)
end_of panicked = some panicked

module _ {W E X St : Type 0} (es : EventStore St E X) where
  -- The end of a run: the cursor is written back and the transaction committed, unless that fails.
  abbrev released :
      String
      → Option SqlxError
      → List ListenerRow
      → W × Result EventId PgEventListenerError
      → (W × List ListenerRow) × Result (Unit {0}) SqlxError
  released id (some x) rows (w, result) = ((w, rows), err x)
  released id none rows (w, ok last) = ((w, release_event_listener id (ok last) rows), ok tt)
  released id none rows (w, err e) = ((w, release_event_listener id (err e) rows), ok tt)
  released id none rows (w, panicked) = ((w, rows), panicked)

  abbrev locked :
      EventListener W E
      → (ℕ → Bool)
      → St
      → ℕ
      → Option SqlxError
      → W
      → List ListenerRow
      → Option EventId
      → (W × List ListenerRow) × Result (Unit {0}) SqlxError
  locked l is_cancelled st size fails w rows none = ((w, rows), ok tt)
  locked l is_cancelled st size fails w rows (some last) =
      released l.id fails rows (handle_events_from l is_cancelled es st size w last)

  -- `try_execute` under the faults of the database.
  unfoldable pub try_execute_under :
      EventListener W E
      → (ℕ → Bool)
      → St
      → ℕ
      → Fault
      → W
      → List ListenerRow
      → (W × List ListenerRow) × Result (Unit {0}) SqlxError
  unfolding lock_event_listener handle_events_from release_event_listener
  try_execute_under l is_cancelled st size (Fault.at_begin x) w rows = ((w, rows), err x)
  try_execute_under l is_cancelled st size (Fault.at_release x) w rows =
      locked l is_cancelled st size (some x) w rows (lock_event_listener l.id rows)
  try_execute_under l is_cancelled st size Fault.no_fault w rows =
      locked l is_cancelled st size none w rows (lock_event_listener l.id rows)

  abbrev executed :
      Task W E
      → (W × List ListenerRow) × Result (Unit {0}) SqlxError
      → Task W E × (W × List ListenerRow)
  executed t (shared, result) = (record t { ended = end_of (execute result) }, shared)

  abbrev pub execute_task :
      Task W E → (ℕ → Bool) → St → Fault → W × List ListenerRow → Task W E × (W × List ListenerRow)
  execute_task t is_cancelled st fault (w, rows) = executed t (
      try_execute_under t.executor.event_handler is_cancelled st t.executor.config.fetch_size fault
        w rows)

  -- One round of the loop of `spawn_task`, by the branch that `select!` takes; a branch that is not
  -- ready is not taken.
  unfoldable pub select :
      Task W E
      → Branch
      → Bool
      → (ℕ → Bool)
      → St
      → Fault
      → W × List ListenerRow
      → Task W E × (W × List ListenerRow)
  unfolding try_execute_under execute
  select t Branch.changed cancelled is_cancelled st fault shared =
      if t.woken
      then execute_task (record t { woken = false }) is_cancelled st fault shared
      else (t, shared)
  select t Branch.tick cancelled is_cancelled st fault shared =
      execute_task t is_cancelled st fault shared
  select t Branch.shutdown cancelled is_cancelled st fault shared =
      if cancelled then (record t { ended = some (ok tt) }, shared) else (t, shared)

  -- A task that has ended does nothing any more.
  abbrev pub round_if :
      Option (Result (Unit {0}) SqlxError)
      → Task W E
      → Branch
      → Bool
      → (ℕ → Bool)
      → St
      → Fault
      → W × List ListenerRow
      → Task W E × (W × List ListenerRow)
  round_if none t branch cancelled is_cancelled st fault shared =
      select t branch cancelled is_cancelled st fault shared
  round_if (some result) t branch cancelled is_cancelled st fault shared = (t, shared)

  abbrev pub round_at :
      ℕ
      → List (Task W E)
      → Branch
      → Bool
      → (ℕ → Bool)
      → St
      → Fault
      → W × List ListenerRow
      → List (Task W E) × (W × List ListenerRow)
  round_at i [] branch cancelled is_cancelled st fault shared = ([], shared)
  round_at zero (t ∷ ts) branch cancelled is_cancelled st fault shared =
      let (t', shared') = round_if t.ended t branch cancelled is_cancelled st fault shared in
      (t' ∷ ts, shared')
  round_at (suc i) (t ∷ ts) branch cancelled is_cancelled st fault shared =
      let (ts', shared') = round_at i ts branch cancelled is_cancelled st fault shared in
      (t ∷ ts', shared')

-- What can happen to the tasks: a round of one of them, which sees a storage, a notification that an
-- event was appended, and the cancellation of the shutdown token.
pub data Step (St : Type 0) : Type 0 where
  round_of : (i : ℕ) (branch : Branch) (is_cancelled : ℕ → Bool) (st : St) (fault : Fault) → Step St
  notified : (event : String) → Step St
  cancel : Step St

module _ {W E X St : Type 0} (es : EventStore St E X) where
  unfoldable pub step : Step St → Process W E → Process W E
  unfolding select wake_all
  step (Step.round_of i branch is_cancelled st fault) p =
      let (ts, (w, rows)) =
        round_at es i p.tasks branch p.cancelled is_cancelled st fault (p.world, p.rows) in
      record p { world = w; rows = rows; tasks = ts }
  step (Step.notified event) p = record p { tasks = wake_all event p.tasks }
  step Step.cancel p = record p { cancelled = true }

  unfoldable pub run : List (Step St) → Process W E → Process W E
  unfolding step
  run [] p = p
  run (s ∷ ss) p = run ss (step s p)
