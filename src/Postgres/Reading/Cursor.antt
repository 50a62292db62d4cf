-- ===== src/Postgres/Reading/Cursor.antt =====
-- About a listener of disintegrate-postgres/src/listener.rs that reads from the store of
-- disintegrate-postgres/src/event_store.rs while clients append.
use mathlib.Core.List.{Memᴰ}
use disintegrate.Prelude.{
  ℕ, some, ◌≤◌, ◌<◌, ◌≡◌, refl, ap, sym, ◌∙◌, Bool, true, false, List, [], ◌∷◌, ◌++◌, append_assoc,
  map, any, filter, leb, is_empty, All, arith, Bool-cases, inl, inr,
}
use disintegrate.Prelude.Result.{Result, ok}
use disintegrate.Event.{EventId, EventInfo, EventSchema, Event, PersistedEvent, event_info}
use disintegrate.EventStore.{Increasing}
use disintegrate.Stream.Filter
use disintegrate.Stream.Filter.{StreamFilter}
use disintegrate.Stream.Query
use disintegrate.Stream.Query.{StreamQuery}
use disintegrate.Postgres.Criteria.{Group, groups, kept_events}
use disintegrate.Postgres.Criteria.Text.{IsPlain}
use disintegrate.Postgres.Session.{World, Action, run, current_epoch}
use disintegrate.Postgres.Session.Consistent.{IsConsistent}
use disintegrate.Postgres.Session.Single.{IsSingle}
use disintegrate.Postgres.Listener.{
  EventListener, PgEventListenerError, take, handle_stream, handle_events_from,
}
use disintegrate.Postgres.Listener.Progress.{Progress, cursor, handle_stream-Progress}
use disintegrate.Postgres.Reading.{stream, pg_event_store}
use disintegrate.Postgres.Reading.Members.{mem-filter, mem_of_mem-filter}
use disintegrate.Postgres.Reading.Delivery.{log, stream_lem}
use disintegrate.Postgres.Reading.Handled.{
  mem-handled, handled-upto, mem-log, cursor-reached, take_rest,
}

module _ {E : Type 0} (ev : Event E) where
  later_than_origin :
      (last : EventId) (fs : List StreamFilter) (e : PersistedEvent E)
      → any (Filter.matches ev e) (map (Filter.change_origin last) fs) ≡ true
      → last < e.id
  unfolding Filter.matches Filter.change_origin
  later_than_origin last [] e m = absurd (cc m)
  later_than_origin last (f ∷ fs) e m = elim (Bool-cases (leb e.id last)) [
    | inr n ↦ ground arith
    | inl y ↦ omega (arith, later_than_origin last fs e (ground arith))
  ]

  module _ (schema : EventSchema) (last : EventId) (f : StreamFilter) (fs : List StreamFilter)
      (gs : List Group) (some_event : All (λ g. is_empty (kept_events g) ≡ false) (f ∷ fs))
      (built : groups schema (Query.change_origin last (record { filters = f ∷ fs })).filters
        ≡ some gs)
      (plain : IsPlain gs) where
    -- The query that the listener reads with.
    abbrev origin_query : StreamQuery
    origin_query = Query.change_origin last (record { filters = f ∷ fs })

    kept :
        (fs : List StreamFilter)
        → All (λ g. is_empty (kept_events g) ≡ false) fs
        → All (λ g. is_empty (kept_events g) ≡ false) (map (Filter.change_origin last) fs)
    unfolding Filter.change_origin
    kept [] h = tt
    kept (g ∷ gs) h = (h.0, kept gs h.1)

    delivered :
        (w : World E) (between : List (ℕ × Action E))
        → ((event : E) → (info : EventInfo) × (event_info schema (ev.name event) ≡ some info))
        → IsConsistent ev w.db w.clients
        → IsSingle w.db w.clients
        → (events : List (PersistedEvent E)) × (stream ev schema some
              (current_epoch w)
              (run ev w between).db
              origin_query
            ≡ map ok events)
          × Increasing 0 events
          × All (λ e. e.id ≤ current_epoch w) events
          × (filter (Query.matches ev origin_query) events
              ≡ filter (Query.matches ev origin_query) (log w))
    unfolding Query.change_origin
    delivered w between known c s =
        let kept_all = kept (f ∷ fs) some_event in
        stream_lem ev schema (Filter.change_origin last f) (map (Filter.change_origin last) fs) gs
          kept_all built plain w between known c s

    later : (e : PersistedEvent E) → Query.matches ev origin_query e ≡ true → last < e.id
    unfolding Query.matches Query.change_origin
    later e m = later_than_origin last (f ∷ fs) e m

    module _ {W : Type 0} (l : EventListener W E) (is_cancelled : ℕ → Bool) where
      progress-handled :
          (world : W) (fetch_size : ℕ) (w : World E) (between actions : List (ℕ × Action E))
          (e : PersistedEvent E) (result : Result EventId PgEventListenerError)
          (p : Progress l world last
            (take fetch_size
              (stream ev schema some (current_epoch w) (run ev w between).db origin_query))
            result)
          → ((event : E) → (info : EventInfo) × (event_info schema (ev.name event) ≡ some info))
          → IsConsistent ev w.db w.clients
          → IsSingle w.db w.clients
          → Memᴰ e (run ev w actions).db.event
          → Query.matches ev origin_query e ≡ true
          → e.id ≤ cursor last result
          → Memᴰ e p.done
      progress-handled world fetch_size w between actions e result p known c s m matches le =
          let all_items =
            stream ev schema some (current_epoch w) (run ev w between).db origin_query in
          let (events, shape, inc, below, exact) = delivered w between known c s in
          let (untaken, taken) = take_rest fetch_size all_items in
          let split : map ok events ≡ map ok p.done ++ (p.rest ++ untaken) =
            sym shape
            ∙ taken
            ∙ ap (λ items. items ++ untaken) p.split
            ∙ append_assoc (map ok p.done) p.rest untaken in
          let after = later e matches in
          let reached = cursor-reached last e result p.done p.reached after le in
          let le_epoch =
            handled-upto (current_epoch w) last events p.done (p.rest ++ untaken) e split below
              after reached in
          let logged =
            mem-filter (Query.matches ev origin_query) e (log w) matches
              (mem-log ev w actions e c le_epoch m) in
          let streamed =
            mem_of_mem-filter (Query.matches ev origin_query) e events (rw (← exact) at logged) in
          mem-handled 0 last events p.done (p.rest ++ untaken) e split inc streamed after reached

      -- The cursor of a listener never passes an event that it has not handled: if a run reads from
      -- a consistent store in which no id is taken twice, the schema knows the types of all events,
      -- no filter of the listener's query excludes all of its events and its criteria are plain (no
      -- quote in a literal, identifiers that name columns), then, whatever the clients do between
      -- the two statements of the read, every event that is in the table then or enters it later,
      -- that the query matches after the cursor that the run starts with, and whose id is at most
      -- the cursor that it leaves, is among the events that the run has handled.
      pub run-handled :
          (world : W) (fetch_size : ℕ) (w : World E) (between actions : List (ℕ × Action E))
          (e : PersistedEvent E)
          → l.query ≡ record { filters = f ∷ fs }
          → ((event : E) → (info : EventInfo) × (event_info schema (ev.name event) ≡ some info))
          → IsConsistent ev w.db w.clients
          → IsSingle w.db w.clients
          → Memᴰ e (run ev w actions).db.event
          → Query.matches ev origin_query e ≡ true
          → e.id
            ≤ cursor last
                (handle_events_from l is_cancelled
                  (pg_event_store ev schema (λ world. run ev world between))
                  w
                  fetch_size
                  world
                  last).1
          → (p : Progress l world last
              (take fetch_size
                (stream ev schema some (current_epoch w) (run ev w between).db origin_query))
              (handle_events_from l is_cancelled
                (pg_event_store ev schema (λ world. run ev world between))
                w
                fetch_size
                world
                last).1)
            × Memᴰ e p.done
      unfolding handle_events_from
      run-handled world fetch_size w between actions e asks known c s m matches le =
          let items =
            take fetch_size
              (stream ev schema some (current_epoch w) (run ev w between).db origin_query) in
          let same : handle_events_from l is_cancelled
                (pg_event_store ev schema (λ world. run ev world between)) w fetch_size world last
              ≡ handle_stream l is_cancelled world last 0 items =
            rw asks refl in
          let p = handle_stream-Progress l is_cancelled world last 0 items in
          rw same (
            p,
            progress-handled world fetch_size w between actions e _ p known c s m matches
                (rw same at le),
          )
