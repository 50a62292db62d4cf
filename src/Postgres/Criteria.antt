-- ===== src/Postgres/Criteria.antt =====
-- The SQL criteria of a stream query: disintegrate-postgres/src/event_store/query.rs. `build` runs
-- in two passes: `groups` computes what each filter contributes, and `render` writes the text.
pub mod Rows
pub mod Text
pub mod Rendered
pub mod Exact
pub mod Agreement
use Prim.Native.String.{◌++◌}
use disintegrate.Prelude.{
  ℕ, String, Bool, true, false, not, Option, none, some, List, [], ◌∷◌, filter, contains, ltb,
  ◌>>=◌, is_empty, if◌then◌else◌,
}
use disintegrate.Prelude.Show.{show, show_ℤ}
use disintegrate.Identifier.{Identifier, IdentifierValue}
use disintegrate.Event.{EventId, EventSchema, event_info, has_domain_identifier}
use disintegrate.Stream.Filter.{StreamFilter}
use disintegrate.Stream.Query.{StreamQuery}

-- `(event_type = 'name' AND id = value AND ...)`
pub record TypeTest : Type 0 where
  pub event_type : String
  pub identifiers : List (Identifier × IdentifierValue)

-- `(event_id > origin AND (test OR ...))`
pub record Group : Type 0 where
  pub after : Option EventId
  pub tests : List TypeTest

-- The names that the filter does not exclude.
abbrev pub without : Option (List String) → List String → List String
without none events = events
without (some excluded) events = filter (λ e. not (contains excluded e)) events

abbrev pub kept_events : StreamFilter → List String
kept_events f = without f.excluded_events f.events

-- `none` is the `unwrap` of a name that the schema does not know.
unfoldable pub type_test : EventSchema → StreamFilter → String → Option TypeTest
type_test schema f event = do
  info ← event_info schema event
  some (record {
    event_type = event;
    identifiers = filter (λ p. has_domain_identifier info p.0) f.identifiers;
  })

unfoldable pub type_tests : EventSchema → StreamFilter → List String → Option (List TypeTest)
unfolding type_test
type_tests schema f [] = some []
type_tests schema f (event ∷ events) = do
  test ← type_test schema f event
  tests ← type_tests schema f events
  some (test ∷ tests)

unfoldable pub group : EventSchema → StreamFilter → Option Group
unfolding type_tests
group schema f = do
  tests ← type_tests schema f (kept_events f)
  some (record { after = if ltb 0 f.origin then some f.origin else none; tests = tests })

unfoldable pub groups : EventSchema → List StreamFilter → Option (List Group)
unfolding group
groups schema [] = some []
groups schema (f ∷ fs) = do g ← group schema f; gs ← groups schema fs; some (g ∷ gs)

-- A text is written between quotes as it is.
abbrev pub render_value : IdentifierValue → String
render_value (IdentifierValue.string v) = "'" ++ v ++ "'"
render_value (IdentifierValue.i64 v) = show_ℤ v
render_value (IdentifierValue.uuid v) = "'" ++ v ++ "'"

abbrev pub render_identifiers : List (Identifier × IdentifierValue) → String
render_identifiers [] = ""
render_identifiers ((k, v) ∷ rest) =
    let more = render_identifiers rest in
    k ++ " = " ++ render_value v ++ (if is_empty rest then "" else " AND ") ++ more

abbrev pub render_tests : List TypeTest → String
render_tests [] = ""
render_tests (t ∷ rest) =
    let more = render_tests rest in
    "(event_type = '"
    ++ t.event_type
    ++ "'"
    ++ (if is_empty t.identifiers then "" else " AND ")
    ++ render_identifiers t.identifiers
    ++ ")"
    ++ (if is_empty rest then "" else " OR ")
    ++ more

abbrev pub render_group : Option EventId → List TypeTest → String
render_group none tests = "(" ++ render_tests tests ++ ")"
render_group (some origin) tests =
    "(event_id > "
    ++ show origin
    ++ (if is_empty tests then "" else " AND (")
    ++ render_tests tests
    ++ (if is_empty tests then "" else ")")
    ++ ")"

unfoldable pub render : List Group → String
unfolding show show_ℤ
render [] = ""
render (g ∷ rest) =
    let more = render rest in
    render_group g.after g.tests ++ (if is_empty rest then "" else " OR ") ++ more

-- `CriteriaBuilder::new(query).build()` for the event type with the given schema.
unfoldable pub build : EventSchema → StreamQuery → Option String
unfolding groups render
build schema q = do gs ← groups schema q.filters; some (render gs)
