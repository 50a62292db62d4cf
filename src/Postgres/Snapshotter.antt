-- ===== src/Postgres/Snapshotter.antt =====
-- Snapshots in PostgreSQL: disintegrate-postgres/src/snapshotter.rs. The id of a snapshot (MD5 and
-- a version 3 UUID) and the JSON form of a state are parameters.
pub mod Store
use Prim.Native.String.{◌++◌}
use disintegrate.Prelude.{
  ℕ, String, Bool, true, false, not, ◌&&◌, Option, none, some, List, [], ◌∷◌, leb, ltb, ◌==◌,
  if◌then◌else◌,
}
use disintegrate.Prelude.Show.{show, show_ℤ}
use disintegrate.Identifier.{Identifier, IdentifierValue, DomainIdentifierSet}
use disintegrate.Event.{EventId}
use disintegrate.Stream.Filter.{StreamFilter}
use disintegrate.Stream.Query.{StreamQuery}
use disintegrate.State.{StateMutate, StatePart, new}

-- `Display` of an identifier value
abbrev display : IdentifierValue → String
display (IdentifierValue.string v) = v
display (IdentifierValue.i64 v) = show_ℤ v
display (IdentifierValue.uuid v) = v

-- `join(",")`
abbrev join : List String → String
join [] = ""
join (x ∷ []) = x
join (x ∷ y ∷ xs) = x ++ "," ++ join (y ∷ xs)

abbrev pairs : DomainIdentifierSet → List String
pairs [] = []
pairs ((k, v) ∷ m) = (k ++ "=" ++ display v) ∷ pairs m

abbrev excluded_key : Option (List String) → String
excluded_key none = ""
excluded_key (some excluded) = "-" ++ join excluded

abbrev query_keys : List StreamFilter → String
query_keys [] = ""
query_keys (f ∷ fs) =
    "("
    ++ show f.origin
    ++ "|"
    ++ join f.events
    ++ excluded_key f.excluded_events
    ++ "|"
    ++ join (pairs f.identifiers)
    ++ ")"
    ++ query_keys fs

unfoldable pub query_key : StreamQuery → String
unfolding show show_ℤ
query_key q = query_keys q.filters

-- A row of the table `snapshot`.
pub record Snapshot (Key : Type 0) : Type 0 where
  pub id : Key
  pub name : String
  pub query : String
  pub payload : String
  pub version : EventId

-- The two hashes and the JSON form of a state, which come from other packages.
pub record Codec (Key S : Type 0) : Type 0 where
  pub snapshot_id : String → String → Key
  pub same_id : Key → Key → Bool
  pub to_string : S → Option String
  pub from_str : String → Option S

module _ {Key S QE E : Type 0} (c : Codec Key S) (sm : StateMutate S QE E) where
  abbrev pub find : Key → List (Snapshot Key) → Option (Snapshot Key)
  find id [] = none
  find id (r ∷ rows) = if c.same_id r.id id then some r else find id rows

  -- `serde_json::from_str(...).unwrap_or(default.into_state())`
  abbrev payload_or : Option S → S → S
  payload_or none default = default
  payload_or (some s) default = s

  abbrev checked : StatePart S → Option (Snapshot Key) → StatePart S
  checked default none = default
  checked default (some row) =
      if sm.name == row.name && query_key (sm.query default.inner) == row.query
      then new row.version (payload_or (c.from_str row.payload) default.inner)
      else default

  unfoldable pub load_snapshot : List (Snapshot Key) → StatePart S → StatePart S
  unfolding new
  load_snapshot table default =
      checked default (find (c.snapshot_id sm.name (query_key (sm.query default.inner))) table)

  -- `INSERT ... ON CONFLICT(id) DO UPDATE SET ... WHERE snapshot.version < $5`
  abbrev upsert : Snapshot Key → List (Snapshot Key) → List (Snapshot Key)
  upsert row [] = row ∷ []
  upsert row (r ∷ rows) =
      if c.same_id r.id row.id
      then (if ltb r.version row.version then row ∷ rows else r ∷ rows)
      else r ∷ upsert row rows

  abbrev store_payload :
      List (Snapshot Key) → StatePart S → Option String → Option (List (Snapshot Key))
  store_payload table state none = none
  store_payload table state (some payload) = some (
      upsert
        (record {
          id = c.snapshot_id sm.name (query_key (sm.query state.inner));
          name = sm.name;
          query = query_key (sm.query state.inner);
          payload = payload;
          version = state.version;
        })
        table)

  -- A snapshot is written when more than `every` events have been applied; `none` is a state that
  -- does not serialize.
  unfoldable pub store_snapshot :
      ℕ → List (Snapshot Key) → StatePart S → Option (List (Snapshot Key))
  store_snapshot every table state =
      if leb state.applied_events every
      then some table
      else store_payload table state (c.to_string state.inner)
