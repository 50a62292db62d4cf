-- ===== src/Decision.antt =====
-- Decisions and the decision maker: disintegrate/src/decision.rs.
pub mod Serial
use disintegrate.Prelude.{Option, none, some, List}
use disintegrate.Prelude.Result.{Result, ok, err, panicked, map_err}
use disintegrate.Event.{PersistedEvent}
use disintegrate.Stream.Query.{StreamQuery}
use disintegrate.State.{MultiState}
use disintegrate.EventStore.{EventStore}
use disintegrate.StateStore.{LoadedState, load, persist}

-- The trait `Decision` over the state `S`, the events `E` and the domain errors `X`.
pub record Decision (S E X : Type 0) : Type 0 where
  pub state_query : S
  pub validation_query : Option StreamQuery
  pub process : S → Result (List E) X

pub data Error (X Y : Type 0) : Type 0 where
  event_store : Y → Error X Y
  state_store : Y → Error X Y
  domain : X → Error X Y

module _ {St S M E X Y : Type 0} (ms : MultiState S M E) (es : EventStore St E Y)
    (d : Decision S E X) (between : St → St) where
  abbrev in_state_store :
      St × Result (List (PersistedEvent E)) Y → St × Result (List (PersistedEvent E)) (Error X Y)
  in_state_store (st, r) = (st, map_err state_store r)

  abbrev pub after_process :
      St → LoadedState S → Result (List E) X → St × Result (List (PersistedEvent E)) (Error X Y)
  after_process st loaded (ok changes) =
      in_state_store (persist ms es (between st) loaded changes d.validation_query)
  after_process st loaded (err x) = (st, err (domain x))
  after_process st loaded panicked = (st, panicked)

  abbrev pub after_load :
      St → Result (LoadedState S) Y → St × Result (List (PersistedEvent E)) (Error X Y)
  after_load st (ok loaded) = after_process st loaded (d.process loaded.state)
  after_load st (err y) = (st, err (state_store y))
  after_load st panicked = (st, panicked)

  -- `DecisionMaker::make`. `between` is what other clients do to the storage while the decision is
  -- computed, between the load and the persist.
  unfoldable pub make : St → St × Result (List (PersistedEvent E)) (Error X Y)
  make st = after_load st (load ms es st d.state_query)
