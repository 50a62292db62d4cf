-- ===== src/Stream/Filter.antt =====
-- `StreamFilter` of disintegrate/src/stream_query.rs.
use disintegrate.Prelude.{
  String, Bool, true, false, not, Option, none, some, List, any, leb, contains, if◌then◌else◌,
}
use disintegrate.Identifier
use disintegrate.Identifier.{Identifier, IdentifierValue, DomainIdentifierSet, value_eq}
use disintegrate.Event.{EventId, EventSchema, Event, PersistedEvent}

pub record StreamFilter : Type 0 where
  pub events : List String
  pub identifiers : DomainIdentifierSet
  pub origin : EventId
  pub excluded_events : Option (List String)

-- `StreamFilter::new` at the event type that has the given schema
unfoldable pub new : EventSchema → DomainIdentifierSet → StreamFilter
new schema identifiers = record {
  events = schema.events;
  identifiers = identifiers;
  origin = 0;
  excluded_events = none;
}

unfoldable pub change_origin : EventId → StreamFilter → StreamFilter
change_origin origin f = record f { origin = origin }

unfoldable pub exclude_events : List String → StreamFilter → StreamFilter
exclude_events excluded f = record f { excluded_events = some excluded }

unfoldable pub cast : StreamFilter → StreamFilter
cast f = record {
  events = f.events;
  identifiers = f.identifiers;
  origin = f.origin;
  excluded_events = f.excluded_events;
}

-- `if let Some(excluded_events) = ... { if excluded_events.contains(&event) ... }`
abbrev pub is_excluded : Option (List String) → String → Bool
is_excluded none name = false
is_excluded (some excluded) name = contains excluded name

-- `found != Some(value)`
abbrev pub differs : Option IdentifierValue → IdentifierValue → Bool
differs none v = true
differs (some w) v = not (value_eq w v)

-- The closure of `StreamQuery::matches`, its early returns in order.
unfoldable pub matches : {E : Type 0} → Event E → PersistedEvent E → StreamFilter → Bool
matches ev e f =
    if is_excluded f.excluded_events (ev.name e.event)
    then false
    else if not (contains f.events (ev.name e.event))
    then false
    else if any (λ p. differs (Identifier.get (ev.domain_identifiers e.event) p.0) p.1)
        f.identifiers
    then false
    else if leb e.id f.origin
    then false
    else true

-- The closure of `StreamQuery::matches_event`.
unfoldable pub matches_event : String → StreamFilter → Bool
matches_event name f = if is_excluded f.excluded_events name then false else true
