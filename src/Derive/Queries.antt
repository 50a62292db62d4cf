-- ===== src/Derive/Queries.antt =====
-- The macros `query!`, `filter!`, `event_types!` and `union!` of disintegrate/src/stream_query.rs, and
-- `#[derive(StateQuery)]` of disintegrate-macros/src/state_query.rs. `none` and `panicked` are panics of
-- constants, and so errors of the build.
use disintegrate.Prelude.{
  String, Bool, true, false, Option, none, some, List, [], ◌∷◌, map, ◌>>=◌, if◌then◌else◌,
}
use disintegrate.Prelude.Result.{Result, ok, err, panicked}
use disintegrate.Identifier
use disintegrate.Identifier.{Identifier, IdentifierValue, DomainIdentifier}
use disintegrate.Event.{EventId, EventSchema}
use disintegrate.Slices.{include}
use disintegrate.Stream.Filter
use disintegrate.Stream.Filter.{StreamFilter}
use disintegrate.Stream.Query
use disintegrate.Stream.Query.{StreamQuery}
use disintegrate.Derive.{Field, into_inner, bound}

-- Whether the schema has every identifier, asked for one after the other.
abbrev pub idents_exist : EventSchema → List DomainIdentifier → Bool
idents_exist schema [] = true
idents_exist schema (d ∷ ds) =
    let rest = idents_exist schema ds in
    if include (map (λ info. into_inner info.ident) schema.domain_identifiers)
      (into_inner d.key ∷ [])
    then rest
    else false

-- `filter!(Event; k == v, ...)`
unfoldable pub filter : EventSchema → List DomainIdentifier → Option StreamFilter
unfolding include into_inner Filter.new Identifier.domain_identifiers
filter schema ds =
    if idents_exist schema ds
    then some (Filter.new schema (Identifier.domain_identifiers ds))
    else none

-- `filter!(origin => Event; k == v, ...)`
unfoldable pub filter_from : EventId → EventSchema → List DomainIdentifier → Option StreamFilter
unfolding filter Filter.change_origin
filter_from origin schema ds = filter schema ds >>= λ f. some (Filter.change_origin origin f)

-- `query!(Event)`
unfoldable pub query_all : EventSchema → StreamQuery
unfolding Query.query
query_all schema = Query.query schema none

-- `query!(Event; k == v, ...)`
unfoldable pub query : EventSchema → List DomainIdentifier → Option StreamQuery
unfolding filter Query.query
query schema ds = filter schema ds >>= λ f. some (Query.query schema (some f))

-- `query!(origin => Event; k == v, ...)`
unfoldable pub query_from : EventId → EventSchema → List DomainIdentifier → Option StreamQuery
unfolding query Query.change_origin
query_from origin schema ds = query schema ds >>= λ q. some (Query.change_origin origin q)

-- `event_types!(Event, [events])`
unfoldable pub event_types : EventSchema → List String → Option (List String)
unfolding include into_inner
event_types schema events =
    if include (map into_inner schema.events) (map into_inner events) then some events else none

-- `union!(first, rest, ...)`
unfoldable pub union : StreamQuery → List StreamQuery → StreamQuery
unfolding Query.cast Query.union
union q [] = Query.cast q
union q (r ∷ []) = Query.union q r
union q (r ∷ s ∷ rs) = Query.union q (union r (s ∷ rs))

-- The attribute `#[state_query(Event, rename = "name")]`, with the schema of its event type.
pub record StateQueryArgs : Type 0 where
  pub event : EventSchema
  pub optional_args : List String

-- The last renaming counts.
unfoldable pub state_query_name : String → List String → String
state_query_name ident [] = ident
state_query_name ident (rename ∷ args) = state_query_name rename args

unfoldable pub impl_state_query : EventSchema → List DomainIdentifier → Option StreamQuery
unfolding query query_all
impl_state_query event [] = some (query_all event)
impl_state_query event (d ∷ ds) = query event (d ∷ ds)

pub record StateQuery : Type 0 where
  pub name : String
  pub query : StreamQuery

-- `impl_struct`, at the values of the fields of a state.
module _ {V : Type 0} (into_identifier_value : V → IdentifierValue) where
  abbrev generated : String → Option StreamQuery → Result StateQuery String
  generated name none = panicked
  generated name (some q) = ok (record { name = name; query = q })

  unfoldable pub state_query_inner :
      String → List StateQueryArgs → List Field → List (String × V) → Result StateQuery String
  unfolding state_query_name impl_state_query
  state_query_inner ident [] fields vs = err "expected a `state_query` attribute"
  state_query_inner ident (args ∷ []) fields vs =
      generated (state_query_name ident args.optional_args)
        (impl_state_query args.event (bound into_identifier_value (λ v. []) fields vs))
  state_query_inner ident (args ∷ other ∷ rest) fields vs = err "expected a `state_query` attribute"
