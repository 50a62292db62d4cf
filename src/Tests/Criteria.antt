-- ===== src/Tests/Criteria.antt =====
-- Criteria of small queries, with the texts that the unit tests of
-- disintegrate-postgres/src/event_store/query.rs expect.
use disintegrate.Prelude.{◌≡◌, refl, true, none, some, List, [], ◌∷◌, arith}
use disintegrate.Prelude.Show.{show, show_ℤ}
use disintegrate.Identifier
use disintegrate.Identifier.{IdentifierType, IdentifierValue, DomainIdentifierSet}
use disintegrate.Event.{EventId, EventSchema, PersistedEvent, event_info, has_domain_identifier}
use disintegrate.Stream.Filter
use disintegrate.Stream.Filter.{StreamFilter}
use disintegrate.Stream.Query
use disintegrate.Stream.Query.{StreamQuery}
use disintegrate.Postgres.Criteria.{Group, group, groups, type_test, type_tests, render, build}
use disintegrate.Postgres.Criteria.Rows.{row_of}
use disintegrate.Prelude.{String}
use disintegrate.Postgres.Criteria.Text.{Level, Reads}
use disintegrate.Postgres.Criteria.Agreement.{criteria_complete}
use disintegrate.Tests.Streams.{ShoppingEvent, cleared, shopping, shopping_schema, one, pen}

abbrev test_schema : EventSchema
test_schema = record {
  events = "Bar" ∷ "Foo" ∷ [];
  events_info =
      record { name = "Bar"; domain_identifiers = "bar_id" ∷ [] }
      ∷ record { name = "Foo"; domain_identifiers = "foo_id" ∷ [] }
      ∷ [];
  domain_identifiers =
      record { ident = "foo_id"; type_info = IdentifierType.string }
      ∷ record { ident = "bar_id"; type_info = IdentifierType.string }
      ∷ [];
}

abbrev test_filter : EventId → DomainIdentifierSet → StreamFilter
test_filter origin identifiers = record {
  events = "Bar" ∷ "Foo" ∷ [];
  identifiers = identifiers;
  origin = origin;
  excluded_events = none;
}

builds_criteria_with_two_ids :
    build test_schema (
      one (
        test_filter 0 (
          ("bar_id", IdentifierValue.string "value2")
          ∷ ("foo_id", IdentifierValue.string "value")
          ∷ [])))
    ≡ some
        "((event_type = 'Bar' AND bar_id = 'value2') OR (event_type = 'Foo' AND foo_id = 'value'))"
unfolding build groups group type_tests type_test render show show_ℤ event_info
    has_domain_identifier
builds_criteria_with_two_ids = refl

builds_criteria_with_origin :
    build test_schema (one (test_filter 10 (("foo_id", IdentifierValue.string "value") ∷ [])))
    ≡ some "(event_id > 10 AND ((event_type = 'Bar') OR (event_type = 'Foo' AND foo_id = 'value')))"
unfolding build groups group type_tests type_test render show show_ℤ event_info
    has_domain_identifier
builds_criteria_with_origin = refl

builds_criteria_with_excluded_events :
    build test_schema (
      Query.exclude_events
        ("Bar" ∷ [])
        (one (test_filter 0 (("bar_id", IdentifierValue.string "value1") ∷ []))))
    ≡ some "((event_type = 'Foo'))"
unfolding build groups group type_tests type_test render show show_ℤ event_info
    has_domain_identifier Query.exclude_events
builds_criteria_with_excluded_events = refl

abbrev added_only : StreamFilter
added_only = record {
  events = "Added" ∷ [];
  identifiers = ("item_id", IdentifierValue.string "pen") ∷ [];
  origin = 2;
  excluded_events = none;
}

abbrev added_group : List Group
added_group =
    record {
      after = some 2;
      tests =
          record {
            event_type = "Added";
            identifiers = ("item_id", IdentifierValue.string "pen") ∷ [];
          }
          ∷ [];
    }
    ∷ []

criteria_complete_example :
    (text : String) × (build shopping_schema (one added_only) ≡ some text)
    × Reads (row_of shopping pen) Level.condition text true
criteria_complete_example =
    criteria_complete shopping_schema shopping pen (omega arith) added_only [] added_group
      (refl, tt) (unfold groups group type_tests type_test event_info has_domain_identifier in refl)
      refl (record { name = "Added"; domain_identifiers = "item_id" ∷ [] })
      (unfold event_info in refl) (unfold Query.matches Filter.matches Identifier.get in refl)

-- A filter from the id 2 on that excludes all it lists.
abbrev nothing_left : StreamFilter
nothing_left = record {
  events = "Cleared" ∷ [];
  identifiers = [];
  origin = 2;
  excluded_events = some ("Cleared" ∷ []);
}

abbrev clearing : PersistedEvent ShoppingEvent
clearing = record { id = 5; event = cleared }

abbrev pen_groups : List Group
pen_groups =
    record {
      after = none;
      tests =
          record {
            event_type = "Added";
            identifiers = ("item_id", IdentifierValue.string "pen") ∷ [];
          }
          ∷ record { event_type = "Cleared"; identifiers = [] }
          ∷ [];
    }
    ∷ []
