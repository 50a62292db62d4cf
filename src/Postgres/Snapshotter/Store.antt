-- ===== src/Postgres/Snapshotter/Store.antt =====
-- About loads and stores of disintegrate-postgres/src/snapshotter.rs.
use disintegrate.Prelude.{
  ℕ, ◌≡◌, ◌<◌, refl, sym, ◌∙◌, ◌↔◌, String, true, none, some, List, [], ◌∷◌, eq_iff, arith,
  Option-cases, inl, inr, if◌then◌else◌,
}
use disintegrate.Event.{EventId}
use disintegrate.State.{StateMutate, StatePart, new}
use disintegrate.Postgres.Snapshotter.{
  Snapshot, Codec, query_key, find, upsert, payload_or, checked, load_snapshot, store_snapshot,
}

-- What the packages behind the codec document: a state that serializes reads back, and equality of
-- ids is equality.
pub record IsCodec {Key S : Type 0} (c : Codec Key S) : Type 0 where
  pub reads_back : (s : S) (text : String) → c.to_string s ≡ some text → c.from_str text ≡ some s
  pub same_id_iff : (a b : Key) → (c.same_id a b ≡ true) ↔ (a ≡ b)

module _ {Key S QE E : Type 0} (c : Codec Key S) (sm : StateMutate S QE E)
    (lawful : IsCodec c) where
  -- The version of the snapshot with the id, if there is one.
  abbrev pub version_at : List (Snapshot Key) → Key → EventId
  version_at [] id = 0
  version_at (r ∷ rows) id = if c.same_id r.id id then r.version else version_at rows id

  find-upsert :
      (row : Snapshot Key) (table : List (Snapshot Key))
      → version_at table row.id < row.version
      → find c sm row.id (upsert c sm row table) ≡ some row
  find-upsert row [] older = ground (arith, lawful.same_id_iff row.id row.id)
  find-upsert row (r ∷ rows) older = ground (
    arith,
    lawful.same_id_iff row.id row.id,
    lawful.same_id_iff r.id row.id,
    find-upsert row rows,
  )

  checked_own :
      (default : StatePart S) (row : Snapshot Key)
      → row.name ≡ sm.name
      → row.query ≡ query_key (sm.query default.inner)
      → checked c sm default (some row)
        ≡ new row.version (payload_or c sm (c.from_str row.payload) default.inner)
  checked_own default row name query =
      ground (arith, eq_iff sm.name row.name, eq_iff (query_key (sm.query default.inner)) row.query)

  -- A state part that has applied enough events and is stored, over an older snapshot or none, is
  -- what a later load of a state with the same query finds: its payload and its version, with the
  -- count of events back at 0. The codec must be lawful.
  pub load-store :
      (every : ℕ) (table table' : List (Snapshot Key)) (state default : StatePart S)
      → every < state.applied_events
      → query_key (sm.query default.inner) ≡ query_key (sm.query state.inner)
      → version_at table (c.snapshot_id sm.name (query_key (sm.query state.inner))) < state.version
      → store_snapshot c sm every table state ≡ some table'
      → load_snapshot c sm table' default
        ≡ record { version = state.version; applied_events = 0; inner = state.inner }
  load-store every table table' state default due same older stored =
      elim (Option-cases (c.to_string state.inner)) [
        | inl fails ↦ absurd (unfold store_snapshot in ground arith)
        | inr (text, serialized) ↦
            let key = query_key (sm.query state.inner) in
            let row : Snapshot Key = record {
              id = c.snapshot_id sm.name key;
              name = sm.name;
              query = key;
              payload = text;
              version = state.version;
            } in
            let written : table' ≡ upsert c sm row table = unfold store_snapshot in ground arith in
            let found : find c sm (c.snapshot_id sm.name key) table' ≡ some row =
              rw written (find-upsert row table older) in
            unfold load_snapshot in
            rw (same, found)
              (checked_own default row refl (sym same)
                ∙ rw (lawful.reads_back state.inner text serialized) refl)
      ]

  -- A snapshot of the state's name and query whose payload cannot be read is not skipped: the load returns the default payload at
  -- the version of the snapshot, so that the events up to there are lost to it.
  pub load_unreadable :
      (table : List (Snapshot Key)) (default : StatePart S) (row : Snapshot Key)
      → find c sm (c.snapshot_id sm.name (query_key (sm.query default.inner))) table ≡ some row
      → row.name ≡ sm.name
      → row.query ≡ query_key (sm.query default.inner)
      → c.from_str row.payload ≡ none
      → load_snapshot c sm table default
        ≡ record { version = row.version; applied_events = 0; inner = default.inner }
  load_unreadable table default row found name query unreadable =
      unfold load_snapshot in rw found (checked_own default row name query ∙ rw unreadable refl)
