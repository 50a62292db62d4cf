-- ===== src/EventStore.antt =====
-- The trait `EventStore` of disintegrate/src/event_store.rs, and the contract that its
-- documentation states.
use disintegrate.Prelude.{◌<◌, ◌≡◌, false, List, [], ◌∷◌, ◌++◌, map, any, filter}
use disintegrate.Prelude.Result.{Result, ok}
use disintegrate.Event.{EventId, Event, PersistedEvent}
use disintegrate.Stream.Query
use disintegrate.Stream.Query.{StreamQuery}

-- `St` is the storage behind the store, which a call may change; `X` is the store's error.
pub record EventStore (St E X : Type 0) : Type 0 where
  pub stream : St → StreamQuery → List (Result (PersistedEvent E) X)
  pub append : St → List E → StreamQuery → EventId → St × Result (List (PersistedEvent E)) X
  pub append_without_validation : St → List E → St × Result (List (PersistedEvent E)) X

-- Strictly increasing ids, all after `lo`.
abbrev pub Increasing : {E : Type 0} → EventId → List (PersistedEvent E) → Type 0
Increasing lo [] = Unit
Increasing lo (e ∷ es) = (lo < e.id) × Increasing e.id es

-- A stream delivers, in the order of their ids, the events of the log that match the query and
-- perhaps others that do not; an append that succeeds has found no event after `last_event_id`
-- that matches its query, and adds its events to the end of the log.
pub record KeepsLog {St E X : Type 0} (es : EventStore St E X) (ev : Event E) : Type 0 where
  pub log : St → List (PersistedEvent E)
  pub increasing : (st : St) → Increasing 0 (log st)
  pub streamed :
      (st : St) (q : StreamQuery)
      → (events : List (PersistedEvent E)) × (es.stream st q ≡ map ok events)
        × Increasing 0 events
        × (filter (Query.matches ev q) events ≡ filter (Query.matches ev q) (log st))
  pub appended :
      (st st' : St) (events : List E) (q : StreamQuery) (last_event_id : EventId)
      (persisted : List (PersistedEvent E))
      → es.append st events q last_event_id ≡ (st', ok persisted)
      → (any (Query.matches ev (Query.change_origin last_event_id q)) (log st) ≡ false)
        × (log st' ≡ log st ++ persisted)
        × (map (λ p. p.event) persisted ≡ events)
