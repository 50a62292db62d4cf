-- ===== src/StateStore.antt =====
-- The event-sourced state store: disintegrate/src/state_store.rs.
pub mod Snapshot
pub mod Replay
use disintegrate.Prelude.{Option, none, some, List, [], ◌∷◌}
use disintegrate.Prelude.Result.{Result, ok, err, panicked, unwrap, ◌>>=◌}
use disintegrate.Event.{EventId, PersistedEvent}
use disintegrate.Stream.Query.{StreamQuery}
use disintegrate.State.{MultiState}
use disintegrate.EventStore.{EventStore}

pub record LoadedState (S : Type 0) : Type 0 where
  pub state : S
  pub version : EventId

module _ {St S M E X : Type 0} (ms : MultiState S M E) (es : EventStore St E X) where
  -- `while let Some(event) = event_stream.try_next().await? { state_query.mutate_all(event); }`
  unfoldable pub mutate_stream : M → List (Result (PersistedEvent E) X) → Result M X
  mutate_stream m [] = ok m
  mutate_stream m (item ∷ items) = do
    event ← item
    m' ← unwrap (ms.mutate_all m event)
    mutate_stream m' items

  unfoldable pub mutate_state : St → M → Result M X
  unfolding mutate_stream
  mutate_state st m = mutate_stream m (es.stream st (ms.query_all m))

  -- `load` without snapshots
  unfoldable pub load : St → S → Result (LoadedState S) X
  unfolding mutate_state
  load st state_query = do
    mutated_state ← mutate_state st (ms.into_state_part state_query)
    ok (record { state = ms.into_state mutated_state; version = ms.version mutated_state })

  -- `validation_query.unwrap_or_else(...)`
  abbrev pub validation : Option StreamQuery → S → StreamQuery
  validation none s = ms.query_all (ms.into_state_part s)
  validation (some q) s = q

  unfoldable pub persist :
      St → LoadedState S → List E → Option StreamQuery → St × Result (List (PersistedEvent E)) X
  persist st loaded events validation_query =
      es.append st events (validation validation_query loaded.state) loaded.version
