-- ===== src/Postgres/Listener/Progress.antt =====
-- About `handle_events_from` of disintegrate-postgres/src/listener.rs.
use disintegrate.Prelude.{
  ℕ, ◌+◌, ◌≡◌, refl, ap, Bool, true, false, Option, none, some, List, [], ◌∷◌, ◌++◌, map, arith,
  Bool-cases, ◌⊎◌, inl, inr, if◌then◌else◌,
}
use disintegrate.Prelude.Result.{Result, ok, err, panicked}
use disintegrate.Event.{EventId, PersistedEvent}
use disintegrate.Postgres.Append.{last_id}
use disintegrate.Postgres.Listener.{EventListener, PgEventListenerError, handle_stream}

-- The cursor that is written back.
abbrev pub cursor : EventId → Result EventId PgEventListenerError → EventId
cursor last (ok id) = id
cursor last (err e) = e.last_processed_event_id
cursor last panicked = last

-- The world after the handler has taken all the events, if it fails at none.
abbrev pub handle_each : {W E : Type 0} → EventListener W E → W → List (PersistedEvent E) → Option W
handle_each l w [] = some w
handle_each l w (e ∷ es) =
    let rest = handle_each l (l.handle w e).0 es in if (l.handle w e).1 then rest else none

-- The run has handled the events `done` of the stream, in order and with none left out, and its
-- cursor is the id of the last of them, unless a statement panicked.
pub record Progress {W E X : Type 0} (l : EventListener W E) (w : W) (last : EventId)
    (items : List (Result (PersistedEvent E) X)) (result : Result EventId PgEventListenerError)
    : Type 0 where
  pub done : List (PersistedEvent E)
  pub rest : List (Result (PersistedEvent E) X)
  pub split : items ≡ map ok done ++ rest
  pub world : W
  pub all_handled : handle_each l w done ≡ some world
  pub reached : (result ≡ panicked) ⊎ (cursor last result ≡ last_id last done)

module _ {W E X : Type 0} (l : EventListener W E) (is_cancelled : ℕ → Bool) where
  stay-Progress :
      (w : W) (last : EventId) (items : List (Result (PersistedEvent E) X))
      (result : Result EventId PgEventListenerError)
      → (result ≡ panicked) ⊎ (cursor last result ≡ last)
      → Progress l w last items result
  stay-Progress w last items result r = record {
    done = [];
    rest = items;
    split = refl;
    world = w;
    all_handled = refl;
    reached = r;
  }

  step-Progress :
      (w : W) (last : EventId) (event : PersistedEvent E)
      (items : List (Result (PersistedEvent E) X)) (result : Result EventId PgEventListenerError)
      → (l.handle w event).1 ≡ true
      → Progress l (l.handle w event).0 event.id items result
      → Progress l w last (ok event ∷ items) result
  step-Progress w last event items result handled p = record {
    done = event ∷ p.done;
    rest = p.rest;
    split = ap (◌∷◌ (ok event)) p.split;
    world = p.world;
    all_handled = rw handled p.all_handled;
    reached = ground (arith, p.reached);
  }

  -- Every run, stopped by an error, by the shutdown or by the end of its stream, has handled a
  -- first part of the stream in order and leaves its cursor at the last event that was handled.
  pub handle_stream-Progress :
      (w : W) (last : EventId) (k : ℕ) (items : List (Result (PersistedEvent E) X))
      → Progress l w last items (handle_stream l is_cancelled w last k items).1
  unfolding handle_stream
  handle_stream-Progress w last k [] = stay-Progress w last [] (ok last) (inr refl)
  handle_stream-Progress w last k (err x ∷ items) =
      stay-Progress w last (err x ∷ items) (err (record { last_processed_event_id = last }))
        (inr refl)
  handle_stream-Progress w last k (panicked ∷ items) =
      stay-Progress w last (panicked ∷ items) panicked (inl refl)
  handle_stream-Progress w last k (ok event ∷ items) = elim (Bool-cases (l.handle w event).1) [
    | inr fails ↦ rw fails (
        stay-Progress w last (ok event ∷ items) (err (record { last_processed_event_id = last }))
          (inr refl))
    | inl done ↦ elim (Bool-cases (is_cancelled k)) [
      | inl stop ↦
          rw (done, stop)
            (step-Progress w last event items (ok event.id) done
              (stay-Progress (l.handle w event).0 event.id items (ok event.id) (inr refl)))
      | inr go ↦
          rw (done, go)
            (step-Progress w last event items _ done
              (handle_stream-Progress (l.handle w event).0 event.id (k + 1) items))
    ]
  ]

module _ {W E : Type 0} (X : Type 0) (l : EventListener W E) (is_cancelled : ℕ → Bool) where
  -- With no shutdown and no error a run handles its whole stream.
  pub handle_stream_complete :
      (w w' : W) (last : EventId) (k : ℕ) (events : List (PersistedEvent E))
      → ((j : ℕ) → is_cancelled j ≡ false)
      → handle_each l w events ≡ some w'
      → handle_stream {X = X} l is_cancelled w last k (map ok events)
        ≡ (w', ok (last_id last events))
  unfolding handle_stream
  handle_stream_complete w w' last k [] running h = ground arith
  handle_stream_complete w w' last k (event ∷ events) running h =
      elim (Bool-cases (l.handle w event).1) [
        | inr fails ↦ absurd (ground arith)
        | inl done ↦
            rw (done, running k)
              (handle_stream_complete (l.handle w event).0 w' event.id (k + 1) events running
                (ground arith))
      ]
