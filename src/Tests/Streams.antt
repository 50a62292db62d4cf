-- ===== src/Tests/Streams.antt =====
-- Stream queries over a small event type.
use disintegrate.Prelude.{none, String, [], ◌∷◌}
use disintegrate.Identifier.{IdentifierType, IdentifierValue, DomainIdentifierSet}
use disintegrate.Event.{EventSchema, Event, PersistedEvent}
use disintegrate.Stream.Filter.{StreamFilter}
use disintegrate.Stream.Query.{StreamQuery}

-- An item is added; `cleared` has no identifier.
pub data ShoppingEvent : Type 0 where
  added : String → ShoppingEvent
  cleared : ShoppingEvent

abbrev pub shopping_schema : EventSchema
shopping_schema = record {
  events = "Added" ∷ "Cleared" ∷ [];
  events_info =
      record { name = "Added"; domain_identifiers = "item_id" ∷ [] }
      ∷ record { name = "Cleared"; domain_identifiers = [] }
      ∷ [];
  domain_identifiers = record { ident = "item_id"; type_info = IdentifierType.string } ∷ [];
}

abbrev shopping_name : ShoppingEvent → String
shopping_name (added item) = "Added"
shopping_name cleared = "Cleared"

abbrev item_set : String → DomainIdentifierSet
item_set item = ("item_id", IdentifierValue.string item) ∷ []

abbrev shopping_set : ShoppingEvent → DomainIdentifierSet
shopping_set (added item) = item_set item
shopping_set cleared = []

abbrev pub shopping : Event ShoppingEvent
shopping = record {
  schema = shopping_schema;
  name = shopping_name;
  domain_identifiers = shopping_set;
}

abbrev pub item_filter : String → StreamFilter
item_filter item = record {
  events = "Added" ∷ "Cleared" ∷ [];
  identifiers = item_set item;
  origin = 0;
  excluded_events = none;
}

abbrev pub one : StreamFilter → StreamQuery
one f = record { filters = f ∷ [] }

abbrev pub pen : PersistedEvent ShoppingEvent
pen = record { id = 4; event = added "pen" }
