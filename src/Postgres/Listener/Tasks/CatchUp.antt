-- ===== src/Postgres/Listener/Tasks/CatchUp.antt =====
-- That a task of disintegrate-postgres/src/listener.rs catches up with its store at the ticks of its timer.
use mathlib.Core.Path.{subst}
use disintegrate.Prelude.{
  ℕ, zero, suc, ◌*◌, ◌≡◌, refl, ap, sym, ◌∙◌, ◌≤◌, Bool, false, none, some, List, [], ◌∷◌, ◌++◌,
  append_assoc, append-nil, map, filter, length, ltb, arith, ◌>>=◌, Option-cases, inl, inr,
}
use disintegrate.Prelude.Result.{ok}
use disintegrate.Event.{EventId, PersistedEvent}
use disintegrate.Stream.Query
use disintegrate.EventStore.{EventStore, Increasing}
use disintegrate.Postgres.Append.{last_id}
use disintegrate.Postgres.Listener.{
  EventListener, ListenerRow, handle_events_from, take, lock_event_listener, release_event_listener,
  set_last_processed, execute,
}
use disintegrate.Postgres.Listener.Progress.{handle_each, handle_stream_complete}
use disintegrate.Postgres.Listener.Tasks.{
  Task, Process, Fault, Branch, Step, select, round_if, try_execute_under, step, run,
}
use disintegrate.Postgres.Listener.Tasks.Parts.{
  drop, take-drop, length-drop, take-map, last_id-append, handle_each-append, lock-set, above_first,
}

-- A number of ticks of the first task, without faults and before the shutdown.
abbrev pub ticks : {St : Type 0} → ℕ → St → List (Step St)
ticks zero st = []
ticks (suc n) st = Step.round_of 0 Branch.tick (λ k. false) st Fault.no_fault ∷ ticks n st

-- The handler has taken the last of the events, and the cursor of the listener stands there.
abbrev pub CaughtUp :
    {W E : Type 0} → EventListener W E → List (PersistedEvent E) → W → Process W E → Type 0
CaughtUp l all w' p = (p.world ≡ w') × (lock_event_listener l.id p.rows ≡ some (last_id 0 all))

module _ {W E X St : Type 0} (es : EventStore St E X) (st : St) (t : Task W E)
    (all : List (PersistedEvent E)) (increasing : Increasing 0 all)
    (streamed : (c : EventId)
      → es.stream st (Query.change_origin c t.executor.event_handler.query)
        ≡ map ok (filter (λ e. ltb c e.id) all))
    (going : t.ended ≡ none) where
  one_run :
      (done rest : List (PersistedEvent E)) (w w' : W) (rows : List ListenerRow)
      → done ++ rest ≡ all
      → lock_event_listener t.executor.event_handler.id rows ≡ some (last_id 0 done)
      → handle_each t.executor.event_handler w (take t.executor.config.fetch_size rest) ≡ some w'
      → try_execute_under es t.executor.event_handler
          (λ k. false)
          st
          t.executor.config.fetch_size
          Fault.no_fault
          w
          rows
        ≡ (
          (
            w',
            set_last_processed t.executor.event_handler.id
                (last_id (last_id 0 done) (take t.executor.config.fetch_size rest))
                rows,
          ),
          ok tt,
        )
  unfolding try_execute_under handle_events_from release_event_listener
  one_run done rest w w' rows split lock handles =
      let left : es.stream st (Query.change_origin (last_id 0 done) t.executor.event_handler.query)
          ≡ map ok rest =
        streamed (last_id 0 done)
        ∙ ap (λ xs. map ok (filter (λ e. ltb (last_id 0 done) e.id) xs)) (sym split)
        ∙ ap (λ xs. map ok xs)
            (above_first 0 done rest (subst (Increasing 0) (sym split) increasing)) in
      rw
        (
          lock,
          left,
          take-map ok t.executor.config.fetch_size rest,
          handle_stream_complete X t.executor.event_handler (λ k. false) w w' (last_id 0 done) 0
              (take t.executor.config.fetch_size rest) (λ j. refl) handles,
        )
        refl

  abbrev written :
      List (PersistedEvent E) → List (PersistedEvent E) → List ListenerRow → List ListenerRow
  written done rest rows =
      set_last_processed t.executor.event_handler.id
        (last_id (last_id 0 done) (take t.executor.config.fetch_size rest)) rows

  one_round :
      (done rest : List (PersistedEvent E)) (w w' : W) (rows : List ListenerRow) (c : Bool)
      → done ++ rest ≡ all
      → lock_event_listener t.executor.event_handler.id rows ≡ some (last_id 0 done)
      → handle_each t.executor.event_handler w (take t.executor.config.fetch_size rest) ≡ some w'
      → round_if es t.ended t Branch.tick c (λ k. false) st Fault.no_fault (w, rows)
        ≡ (t, (w', written done rest rows))
  unfolding select execute
  one_round done rest w w' rows c split lock handles =
      let ran = one_run done rest w w' rows split lock handles in
      let ticked : round_if es none t Branch.tick c (λ k. false) st Fault.no_fault (w, rows)
          ≡ (record t { ended = none }, (w', written done rest rows)) =
        rw ran refl in
      ap (λ o. round_if es o t Branch.tick c (λ k. false) st Fault.no_fault (w, rows)) going
      ∙ ticked
      ∙ ap (λ o. (record t { ended = o }, (w', written done rest rows))) (sym going)

  -- The state of the process, with the task in front.
  abbrev in_process : W → List ListenerRow → Bool → List (Task W E) → Process W E
  in_process w rows c ts = record { world = w; rows = rows; cancelled = c; tasks = t ∷ ts }

  one_tick :
      (done rest : List (PersistedEvent E)) (w w' : W) (rows : List ListenerRow) (c : Bool)
      (ts : List (Task W E))
      → done ++ rest ≡ all
      → lock_event_listener t.executor.event_handler.id rows ≡ some (last_id 0 done)
      → handle_each t.executor.event_handler w (take t.executor.config.fetch_size rest) ≡ some w'
      → step es
          (Step.round_of 0 Branch.tick (λ k. false) st Fault.no_fault)
          (in_process w rows c ts)
        ≡ in_process w' (written done rest rows) c ts
  unfolding step
  one_tick done rest w w' rows c ts split lock handles =
      ap
        (λ (r : Task W E × (W × List ListenerRow)). record {
          world = r.1.0;
          rows = r.1.1;
          cancelled = c;
          tasks = r.0 ∷ ts;
        })
        (one_round done rest w w' rows c split lock handles)

  -- If the streams of a store hold the events above their origin, with increasing ids, a task whose
  -- cursor stands at the end of a first part of them, and whose handler takes the rest without an error,
  -- catches up: after enough ticks for the rest, at its fetch size, the handler has taken every event of
  -- the rest once and in order, and the cursor stands at the last one.
  pub run-ticks :
      (n : ℕ) (done rest : List (PersistedEvent E)) (w w' : W) (rows : List ListenerRow) (c : Bool)
      (ts : List (Task W E))
      → done ++ rest ≡ all
      → length rest ≤ n * t.executor.config.fetch_size
      → lock_event_listener t.executor.event_handler.id rows ≡ some (last_id 0 done)
      → handle_each t.executor.event_handler w rest ≡ some w'
      → CaughtUp t.executor.event_handler all w' (run es (ticks n st) (in_process w rows c ts))
  unfolding run
  run-ticks zero done [] w w' rows c ts split few lock handles =
      (ground arith, lock ∙ ap (λ xs. some (last_id 0 xs)) (sym (append-nil done) ∙ split))
  run-ticks zero done (x ∷ rest) w w' rows c ts split few lock handles = absurd (omega (arith, few))
  run-ticks (suc n) done rest w w' rows c ts split few lock handles =
      let l = t.executor.event_handler in
      let size = t.executor.config.fetch_size in
      let parts : handle_each l w (take size rest ++ drop size rest) ≡ some w' =
        ap (handle_each l w) (take-drop size rest) ∙ handles in
      let both : (handle_each l w (take size rest) >>= λ v. handle_each l v (drop size rest))
          ≡ some w' =
        sym (handle_each-append l w (take size rest) (drop size rest)) ∙ parts in
      elim (Option-cases (handle_each l w (take size rest))) [
        | inl fails ↦ absurd (ground arith)
        | inr (v, first) ↦
            let ticked = one_tick done rest w v rows c ts split lock first in
            subst (λ p. CaughtUp t.executor.event_handler all w' (run es (ticks n st) p))
              (sym ticked)
              (run-ticks n (done ++ take size rest) (drop size rest) v w' (written done rest rows) c
                ts
                (append_assoc done (take size rest) (drop size rest)
                  ∙ ap (λ xs. done ++ xs) (take-drop size rest)
                  ∙ split)
                (length-drop size (n * size) rest (omega (arith, few)))
                (lock-set l.id (last_id 0 done) (last_id (last_id 0 done) (take size rest)) rows
                    lock
                  ∙ ap some (sym (last_id-append 0 done (take size rest))))
                (ground arith))
      ]
