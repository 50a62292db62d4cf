-- ===== src/Postgres/Indexer.antt =====
-- The indexer of identifiers: disintegrate-postgres/src/listener/id_indexer.rs, a listener that writes
-- the identifiers of old events into their columns of the table `event`.
pub mod Columns
use Prim.Native.String.{◌++◌}
use mathlib.Core.List.{◌++◌ as append}
use disintegrate.Prelude.{
  ℕ, suc, String, Bool, true, false, Option, none, some, List, [], ◌∷◌, map, length, eqb, is_empty,
  if◌then◌else◌,
}
use disintegrate.Prelude.Show.{show}
use disintegrate.Identifier
use disintegrate.Identifier.{Identifier, IdentifierValue, DomainIdentifierSet}
use disintegrate.Event.{EventId, Event, PersistedEvent}
use disintegrate.Stream.Query
use disintegrate.Postgres.Criteria.Rows.{Row}
use disintegrate.Postgres.Listener.{EventListener}

-- A value that is bound to a parameter of a statement.
pub data Bind : Type 0 where
  identifier : IdentifierValue → Bind
  event_id : EventId → Bind

pub record Statement : Type 0 where
  pub text : String
  pub binds : List Bind

-- The assignments, from the parameter with the number on.
abbrev pub assignments : ℕ → DomainIdentifierSet → String
assignments n [] = ""
assignments n ((k, v) ∷ rest) =
    let more = assignments (suc n) rest in
    k ++ " = " ++ "$" ++ show n ++ (if is_empty rest then "" else ",") ++ more

unfoldable pub sql_builder : EventId → DomainIdentifierSet → Statement
unfolding show
sql_builder id identifiers = record {
  text =
      "UPDATE event SET "
      ++ assignments 1 identifiers
      ++ " WHERE event_id = "
      ++ "$"
      ++ show (suc (length identifiers));
  binds = append (map (λ p. Bind.identifier p.1) identifiers) (Bind.event_id id ∷ []);
}

-- An identifier that the event has replaces the value of its column.
abbrev pub or_else : Option IdentifierValue → Option IdentifierValue → Option IdentifierValue
or_else none old = old
or_else (some v) old = some v

abbrev pub index_row : EventId → DomainIdentifierSet → Row → Row
index_row id identifiers r =
    if eqb r.event_id id
    then record r { column = λ k. or_else (Identifier.get identifiers k) (r.column k) }
    else r

-- The execution of the statement; with no assignment it is a syntax error.
unfoldable pub execute_update : EventId → DomainIdentifierSet → List Row → Option (List Row)
execute_update id identifiers rows =
    if is_empty identifiers then none else some (map (index_row id identifiers) rows)

abbrev pub handled : List Row → Option (List Row) → List Row × Bool
handled rows none = (rows, false)
handled rows (some rows') = (rows', true)

-- `PgIdIndexer` as a listener over the rows of the table `event`, with its `id`.
unfoldable pub id_indexer : {E : Type 0} → Event E → String → EventListener (List Row) E
unfolding execute_update
id_indexer ev id = record {
  id = id;
  query = Query.query ev.schema none;
  handle = λ rows e. handled rows (execute_update e.id (ev.domain_identifiers e.event) rows);
}
