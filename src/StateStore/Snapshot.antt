-- ===== src/StateStore/Snapshot.antt =====
-- Loading a state with snapshots: `load` of disintegrate/src/state_store.rs with `WithSnapshot`.
pub mod Faithful
use disintegrate.Prelude.{Bool, true, false}
use disintegrate.Prelude.Result.{Result, ok, err, panicked}
use disintegrate.State.{MultiState}
use disintegrate.State.Snapshots.{MultiStateSnapshot}
use disintegrate.EventStore.{EventStore}
use disintegrate.StateStore.{LoadedState, mutate_state}

-- The errors behind `BoxDynError`.
pub data LoadError (X : Type 0) : Type 0 where
  event_store : X → LoadError X
  snapshot : LoadError X

module _ {St B S M E X : Type 0} (ms : MultiState S M E) (es : EventStore St E X)
    (sn : MultiStateSnapshot B M) where
  abbrev stored : M → B × Bool → B × Result (LoadedState S) (LoadError X)
  stored m (b, true) = (b, ok (record { state = ms.into_state m; version = ms.version m }))
  stored m (b, false) = (b, err snapshot)

  abbrev store_and_return : B → Result M X → B × Result (LoadedState S) (LoadError X)
  store_and_return b (ok m) = stored m (sn.store_all b m)
  store_and_return b (err x) = (b, err (event_store x))
  store_and_return b panicked = (b, panicked)

  unfoldable pub load_with_snapshot : St → B → S → B × Result (LoadedState S) (LoadError X)
  unfolding mutate_state
  load_with_snapshot st b state_query =
      store_and_return b (mutate_state ms es st (sn.load_all b (ms.into_state_part state_query)))
