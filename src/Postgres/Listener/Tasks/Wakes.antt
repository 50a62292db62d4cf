-- ===== src/Postgres/Listener/Tasks/Wakes.antt =====
-- About the notifications of disintegrate-postgres/src/listener.rs: `ExecutorWaker` and the channel that the
-- loop of `spawn_task` watches.
use disintegrate.Prelude.{
  ℕ, zero, suc, ◌≡◌, refl, Bool, true, false, ◌&&◌, Option, none, some, List, [], ◌∷◌, String, All,
  arith, eqb,
}
use disintegrate.Prelude.Result.{Result}
use disintegrate.Event.{Event, PersistedEvent}
use disintegrate.Stream.Query
use disintegrate.Stream.Laws.{matches_event_of_matches}
use disintegrate.EventStore.{EventStore}
use disintegrate.Postgres.Listener.{ListenerRow, SqlxError, wake}
use disintegrate.Postgres.Listener.Tasks.{
  Task, Process, Fault, Branch, Step, select, round_if, round_at, wake_all, step, run,
}

-- Whether the channel of the task at a position has a change that the task has not seen, if there is one.
abbrev pub woken_at : {W E : Type 0} → ℕ → List (Task W E) → Bool
woken_at i [] = true
woken_at zero (t ∷ ts) = t.woken
woken_at (suc i) (t ∷ ts) = woken_at i ts

-- Whether the task at a position has a notifier, and a query that matches an event.
abbrev pub hears_at : {W E : Type 0} → Event E → PersistedEvent E → ℕ → List (Task W E) → Bool
hears_at ev e i [] = true
hears_at ev e zero (t ∷ ts) =
    t.executor.config.notifier_enabled && Query.matches ev t.executor.event_handler.query e
hears_at ev e (suc i) (t ∷ ts) = hears_at ev e i ts

-- A round of the task at a position that takes the change of its channel.
abbrev pub takes_change : {St : Type 0} → ℕ → Step St → Bool
takes_change j (Step.round_of i Branch.changed is_cancelled st fault) = eqb i j
takes_change j (Step.round_of i Branch.tick is_cancelled st fault) = false
takes_change j (Step.round_of i Branch.shutdown is_cancelled st fault) = false
takes_change j (Step.notified event) = false
takes_change j Step.cancel = false

module _ {W E : Type 0} where
  woken_at-wake_all :
      (ev : Event E) (e : PersistedEvent E) (i : ℕ) (ts : List (Task W E))
      → hears_at ev e i ts ≡ true
      → woken_at i (wake_all (ev.name e.event) ts) ≡ true
  unfolding wake_all wake
  woken_at-wake_all ev e i [] h = refl
  woken_at-wake_all ev e zero (t ∷ ts) h =
      ground (arith, matches_event_of_matches ev e t.executor.event_handler.query)
  woken_at-wake_all ev e (suc i) (t ∷ ts) h = woken_at-wake_all ev e i ts h

  still_woken :
      (event : String) (i : ℕ) (ts : List (Task W E))
      → woken_at i ts ≡ true
      → woken_at i (wake_all event ts) ≡ true
  unfolding wake_all
  still_woken event i [] h = refl
  still_woken event zero (t ∷ ts) h = ground arith
  still_woken event (suc i) (t ∷ ts) h = still_woken event i ts h

takes_change-suc :
    {St : Type 0} (i j : ℕ) (branch : Branch) (is_cancelled : ℕ → Bool) (st : St) (fault : Fault)
    → takes_change (suc j) (Step.round_of (suc i) branch is_cancelled st fault) ≡ false
    → takes_change j (Step.round_of i branch is_cancelled st fault) ≡ false
takes_change-suc i j Branch.changed is_cancelled st fault h = ground arith
takes_change-suc i j Branch.tick is_cancelled st fault h = refl
takes_change-suc i j Branch.shutdown is_cancelled st fault h = refl

module _ {W E X St : Type 0} (es : EventStore St E X) where
  round_if-woken :
      (o : Option (Result (Unit {0}) SqlxError)) (t : Task W E) (branch : Branch) (c : Bool)
      (is_cancelled : ℕ → Bool) (st : St) (fault : Fault) (shared : W × List ListenerRow)
      → takes_change 0 (Step.round_of 0 branch is_cancelled st fault) ≡ false
      → t.woken ≡ true
      → (round_if es o t branch c is_cancelled st fault shared).0.woken ≡ true
  unfolding select
  round_if-woken (some r) t branch c is_cancelled st fault shared q h = h
  round_if-woken none t Branch.changed c is_cancelled st fault shared q h = absurd (ground arith)
  round_if-woken none t Branch.tick c is_cancelled st fault shared q h = h
  round_if-woken none t Branch.shutdown true is_cancelled st fault shared q h = h
  round_if-woken none t Branch.shutdown false is_cancelled st fault shared q h = h

  woken_at-round_at :
      (i j : ℕ) (ts : List (Task W E)) (branch : Branch) (c : Bool) (is_cancelled : ℕ → Bool)
      (st : St) (fault : Fault) (shared : W × List ListenerRow)
      → takes_change j (Step.round_of i branch is_cancelled st fault) ≡ false
      → woken_at j ts ≡ true
      → woken_at j (round_at es i ts branch c is_cancelled st fault shared).0 ≡ true
  woken_at-round_at i j [] branch c is_cancelled st fault shared q h = refl
  woken_at-round_at zero zero (t ∷ ts) branch c is_cancelled st fault shared q h =
      round_if-woken t.ended t branch c is_cancelled st fault shared q h
  woken_at-round_at zero (suc j) (t ∷ ts) branch c is_cancelled st fault shared q h = h
  woken_at-round_at (suc i) zero (t ∷ ts) branch c is_cancelled st fault shared q h = h
  woken_at-round_at (suc i) (suc j) (t ∷ ts) branch c is_cancelled st fault shared q h =
      woken_at-round_at i j ts branch c is_cancelled st fault shared
        (takes_change-suc i j branch is_cancelled st fault q) h

  run-woken :
      (ss : List (Step St)) (p : Process W E) (j : ℕ)
      → All (λ s. takes_change j s ≡ false) ss
      → woken_at j p.tasks ≡ true
      → woken_at j (run es ss p).tasks ≡ true
  unfolding run step
  run-woken [] p j quiet h = h
  run-woken (Step.round_of i branch is_cancelled st fault ∷ ss) p j quiet h =
      run-woken ss (step es (Step.round_of i branch is_cancelled st fault) p) j quiet.1 (
        woken_at-round_at i j p.tasks branch p.cancelled is_cancelled st fault (p.world, p.rows)
          quiet.0 h)
  run-woken (Step.notified event ∷ ss) p j quiet h =
      run-woken ss (step es (Step.notified event) p) j quiet.1 (still_woken event j p.tasks h)
  run-woken (Step.cancel ∷ ss) p j quiet h = run-woken ss (step es Step.cancel p) j quiet.1 h

  -- No notification that is received is lost: after that of an event, every task with a notifier whose query matches the
  -- event has a change to see, and keeps it, whatever the tasks do, until it takes it.
  pub run-notified :
      (ev : Event E) (e : PersistedEvent E) (ss : List (Step St)) (p : Process W E) (i : ℕ)
      → hears_at ev e i p.tasks ≡ true
      → All (λ s. takes_change i s ≡ false) ss
      → woken_at i (run es (Step.notified (ev.name e.event) ∷ ss) p).tasks ≡ true
  unfolding run step
  run-notified ev e ss p i hears quiet =
      run-woken ss (step es (Step.notified (ev.name e.event)) p) i quiet
        (woken_at-wake_all ev e i p.tasks hears)
