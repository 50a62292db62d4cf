-- ===== src/State/Snapshots.antt =====
-- Snapshots of state parts: the trait `StateSnapshotter` of disintegrate/src/state_store.rs and the
-- trait `MultiStateSnapshot` of disintegrate/src/state.rs with its implementation for tuples.
use disintegrate.Prelude.{Bool, true, false}
use disintegrate.State.{StatePart}

-- `B` is the storage of the backend. `false` is an error; what was written before it stays.
pub record StateSnapshotter (B S : Type 0) : Type 0 where
  pub load_snapshot : B → StatePart S → StatePart S
  pub store_snapshot : B → StatePart S → B × Bool

pub record MultiStateSnapshot (B M : Type 0) : Type 0 where
  pub load_all : B → M → M
  pub store_all : B → M → B × Bool

unfoldable pub single_snapshot :
    {B S : Type 0} → StateSnapshotter B S → MultiStateSnapshot B (StatePart S)
single_snapshot sn = record {
  load_all = λ b p. sn.load_snapshot b p;
  store_all = λ b p. sn.store_snapshot b p;
}

abbrev store_last : {B S : Type 0} → StateSnapshotter B S → StatePart S → B × Bool → B × Bool
store_last sn p (b, true) = sn.store_snapshot b p
store_last sn p (b, false) = (b, false)

-- The last part is loaded first and stored last.
unfoldable pub pair_snapshot :
    {B M S : Type 0}
    → MultiStateSnapshot B M
    → StateSnapshotter B S
    → MultiStateSnapshot B (M × StatePart S)
pair_snapshot ms sn = record {
  load_all = λ b m. let last = sn.load_snapshot b m.1 in (ms.load_all b m.0, last);
  store_all = λ b m. store_last sn m.1 (ms.store_all b m.0);
}
