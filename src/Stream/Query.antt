-- ===== src/Stream/Query.antt =====
-- `StreamQuery` and `query` of disintegrate/src/stream_query.rs.
use disintegrate.Prelude.{
  String, Bool, Option, none, some, List, [], ◌∷◌, ◌++◌, map, any, filter, contains,
}
use disintegrate.Event.{EventId, EventSchema, Event, PersistedEvent}
use disintegrate.Stream.Filter
use disintegrate.Stream.Filter.{StreamFilter}

pub record StreamQuery : Type 0 where
  pub filters : List StreamFilter

unfoldable pub cast : StreamQuery → StreamQuery
unfolding Filter.cast
cast q = record { filters = map Filter.cast q.filters }

unfoldable pub union : StreamQuery → StreamQuery → StreamQuery
unfolding Filter.cast
union q other = record { filters = map Filter.cast q.filters ++ map Filter.cast other.filters }

unfoldable pub change_origin : EventId → StreamQuery → StreamQuery
unfolding Filter.change_origin
change_origin origin q = record { filters = map (Filter.change_origin origin) q.filters }

-- Only the names that the filter selects are kept as its exclusions.
abbrev pub exclude_from : List String → StreamFilter → StreamFilter
exclude_from excluded f = record f {
  excluded_events = some (filter (λ e. contains f.events e) excluded);
}

unfoldable pub exclude_events : List String → StreamQuery → StreamQuery
exclude_events excluded q = record { filters = map (exclude_from excluded) q.filters }

unfoldable pub matches : {E : Type 0} → Event E → StreamQuery → PersistedEvent E → Bool
unfolding Filter.matches
matches ev q e = any (Filter.matches ev e) q.filters

unfoldable pub matches_event : StreamQuery → String → Bool
unfolding Filter.matches_event
matches_event q name = any (Filter.matches_event name) q.filters

-- `query(filter)`; the schema is that of the target event type.
unfoldable pub query : EventSchema → Option StreamFilter → StreamQuery
unfolding Filter.cast Filter.new
query schema (some f) = record { filters = Filter.cast f ∷ [] }
query schema none = record { filters = Filter.new schema [] ∷ [] }
