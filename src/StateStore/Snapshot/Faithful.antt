-- ===== src/StateStore/Snapshot/Faithful.antt =====
-- About the two loads of disintegrate/src/state_store.rs.
use disintegrate.Prelude.{◌≡◌, Option, some, List, ◌++◌}
use disintegrate.Prelude.Result.{Result, ok, unwrap, map_err, ◌>>=◌}
use disintegrate.Event.{Event, PersistedEvent}
use disintegrate.State.{MultiState, mutate_each}
use disintegrate.State.Multi.{IsLawful}
use disintegrate.State.Counters.{Forgets}
use disintegrate.State.Snapshots.{MultiStateSnapshot}
use disintegrate.EventStore.{EventStore, KeepsLog}
use disintegrate.StateStore.{LoadedState}
use disintegrate.StateStore.Snapshot.{LoadError, event_store}

module _ {St B S M E X : Type 0} (ms : MultiState S M E) (ev : Event E) (lawful : IsLawful ms ev)
    (es : EventStore St E X) (k : KeepsLog es ev) (sn : MultiStateSnapshot B M)
    (fs : Forgets ms) where
  -- The snapshots of a state were taken at some point of the log: the events of the log up to there
  -- replay to the group that is loaded, but for the counters of applied events.
  pub record TakenFrom (log : List (PersistedEvent E)) (b : B) (s : S) : Type 0 where
    pub seen : List (PersistedEvent E)
    pub later : List (PersistedEvent E)
    pub split : log ≡ seen ++ later
    pub at : M
    pub replayed : mutate_each ms (ms.into_state_part s) seen ≡ some at
    pub taken : fs.forget (sn.load_all b (ms.into_state_part s)) ≡ fs.forget at

  abbrev loaded_of : M → LoadedState S
  loaded_of m = record { state = ms.into_state m; version = ms.version m }

  abbrev outcome : Option M → Result (LoadedState S) (LoadError X)
  outcome o = map_err event_store (unwrap o >>= λ m. ok (loaded_of m))
