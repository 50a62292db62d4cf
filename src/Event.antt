-- ===== src/Event.antt =====
-- Events, their schema and persisted events: disintegrate/src/event.rs.
use disintegrate.Prelude.{
  ℕ, String, Bool, Option, none, some, List, [], ◌∷◌, any, ◌==◌, if◌then◌else◌,
}
use disintegrate.Identifier.{Identifier, IdentifierType, DomainIdentifierSet}

-- The id that the store gives to an event; `Default` is 0.
abbrev pub EventId : Type 0
EventId = ℕ

pub record EventInfo : Type 0 where
  pub name : String
  pub domain_identifiers : List Identifier

unfoldable pub has_domain_identifier : EventInfo → Identifier → Bool
has_domain_identifier info ident = any (λ id. id == ident) info.domain_identifiers

pub record DomainIdentifierInfo : Type 0 where
  pub ident : Identifier
  pub type_info : IdentifierType

pub record EventSchema : Type 0 where
  pub events : List String
  pub events_info : List EventInfo
  pub domain_identifiers : List DomainIdentifierInfo

-- `iter().find(|info| info.name == name)`
abbrev pub find_info : List EventInfo → String → Option EventInfo
find_info [] name = none
find_info (info ∷ rest) name = if info.name == name then some info else find_info rest name

unfoldable pub event_info : EventSchema → String → Option EventInfo
event_info schema name = find_info schema.events_info name

-- The trait `Event`.
pub record Event (E : Type 0) : Type 0 where
  pub schema : EventSchema
  pub name : E → String
  pub domain_identifiers : E → DomainIdentifierSet

pub record PersistedEvent (E : Type 0) : Type 0 where
  pub id : EventId
  pub event : E
