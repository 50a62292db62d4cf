-- ===== src/Tests/Tasking.antt =====
-- Runs of the tasks of a listener.
use disintegrate.Prelude.{
  ℕ, ◌≡◌, refl, true, false, none, some, String, List, [], ◌∷◌, map, filter, ltb, All, arith, inl,
}
use disintegrate.Prelude.Result.{ok, err}
use disintegrate.Identifier
use disintegrate.Event.{EventId, PersistedEvent}
use disintegrate.EventStore.{EventStore}
use disintegrate.Stream.Filter
use disintegrate.Stream.Filter.{StreamFilter}
use disintegrate.Stream.Query
use disintegrate.Postgres.Listener.{SqlxError, lock_event_listener}
use disintegrate.Postgres.Listener.Tasks.{
  Task, Process, Fault, Branch, Step, poller, fetch_size, with_notifier, builder, register_listener,
  start, launch, spawn, run,
}
use disintegrate.Postgres.Listener.Tasks.CatchUp.{ticks, CaughtUp, run-ticks}
use disintegrate.Postgres.Listener.Tasks.Ends.{EndsRight, run-EndsRight}
use disintegrate.Postgres.Listener.Tasks.Wakes.{woken_at, run-notified}
use disintegrate.Tests.Streams.{ShoppingEvent, shopping}
use disintegrate.Tests.Listening.{counter, never, item}

-- A store whose streams are the events above the origin of their query.
abbrev origin_of : List StreamFilter → EventId
origin_of [] = 0
origin_of (f ∷ fs) = f.origin

abbrev store : EventStore (List (PersistedEvent ShoppingEvent)) ShoppingEvent String
store = record {
  stream = λ st q. map ok (filter (λ e. ltb (origin_of q.filters) e.id) st);
  append = λ st events q last. (st, err "read only");
  append_without_validation = λ st events. (st, err "read only");
}

abbrev pens : List (PersistedEvent ShoppingEvent)
pens = item 2 "pen" ∷ item 3 "pen" ∷ item 5 "pen" ∷ []

abbrev task : Task ℕ ShoppingEvent
task = record {
  executor = record {
    event_handler = counter;
    config = record { poll = 50; fetch_size = 2; notifier_enabled = true };
  };
  woken = false;
  ended = none;
}

abbrev idle : Process ℕ ShoppingEvent
idle = record {
  world = 0;
  rows = record { id = "counter"; last_processed_event_id = 0; locked = false } ∷ [];
  cancelled = false;
  tasks = task ∷ [];
}

abbrev fresh : Process ℕ ShoppingEvent
fresh = record { world = 0; rows = []; cancelled = false; tasks = [] }

starts :
    start
      (register_listener builder counter (with_notifier (fetch_size 2 (poller 50))))
      (ok tt)
      []
      fresh
    ≡ (idle, ok tt)
unfolding start launch spawn register_listener builder with_notifier fetch_size poller
starts = refl

-- The second listener's row cannot be written: the start fails, and the first listener runs.
leaves_a_task :
    start
      (register_listener
        (register_listener builder counter (with_notifier (fetch_size 2 (poller 50))))
        counter
        (poller 50))
      (ok tt)
      (none ∷ some SqlxError.io ∷ [])
      fresh
    ≡ (idle, err SqlxError.io)
unfolding start launch spawn register_listener builder with_notifier fetch_size poller
leaves_a_task = refl

run-ticks_example : CaughtUp counter pens 3 (run store (ticks 2 pens) idle)
run-ticks_example =
    run-ticks store pens task pens (omega arith, (omega arith, (omega arith, tt)))
      (λ c. unfold Query.change_origin Filter.change_origin in refl) refl 2 [] pens 0 3 idle.rows
      false [] refl (omega arith) (unfold lock_event_listener in refl) refl

abbrev rounds : List (Step (List (PersistedEvent ShoppingEvent)))
rounds =
    Step.round_of 0 Branch.tick never pens (Fault.at_release SqlxError.other)
    ∷ Step.round_of 0 Branch.tick never pens Fault.no_fault
    ∷ []

run-EndsRight_example : let p' = run store rounds idle in All (EndsRight p'.cancelled) p'.tasks
run-EndsRight_example = run-EndsRight store rounds idle (inl refl, tt)

abbrev last_rounds : List (Step (List (PersistedEvent ShoppingEvent)))
last_rounds =
    Step.round_of 0 Branch.tick never pens Fault.no_fault
    ∷ Step.round_of 0 Branch.shutdown never pens Fault.no_fault
    ∷ []

run-notified_example :
    woken_at 0
      (run store
        (Step.notified "Added" ∷ Step.round_of 0 Branch.tick never pens Fault.no_fault ∷ [])
        idle).tasks
    ≡ true
run-notified_example =
    run-notified store shopping (item 2 "pen")
      (Step.round_of 0 Branch.tick never pens Fault.no_fault ∷ []) idle 0
      (unfold Query.matches Filter.matches Identifier.get in refl) (refl, tt)
