-- ===== src/Postgres/Criteria/Rows.antt =====
-- What the criteria select, as PostgreSQL reads the text.
use disintegrate.Prelude.{
  Bool, false, ◌&&◌, ◌||◌, String, Option, none, some, List, [], ◌∷◌, any, all, ltb, ◌==◌, ◌>>=◌,
}
use disintegrate.Identifier
use disintegrate.Identifier.{Identifier, IdentifierValue, value_eq}
use disintegrate.Event.{EventId, Event, PersistedEvent}
use disintegrate.Postgres.Criteria.{TypeTest, Group}

-- A row of the table `event` or `event_sequence`; a column with no value is NULL.
pub record Row : Type 0 where
  pub event_id : EventId
  pub event_type : String
  pub column : Identifier → Option IdentifierValue

-- `column = value` does not hold at NULL.
abbrev pub equals : Option IdentifierValue → IdentifierValue → Bool
equals none v = false
equals (some w) v = value_eq w v

abbrev pub test_holds : Row → TypeTest → Bool
test_holds row t =
    t.event_type == row.event_type && all (λ p. equals (row.column p.0) p.1) t.identifiers

-- `()` is a syntax error, for which `none` stands.
abbrev pub group_holds : Row → Option EventId → List TypeTest → Option Bool
group_holds row none [] = none
group_holds row none (t ∷ ts) = some (any (test_holds row) (t ∷ ts))
group_holds row (some origin) [] = some (ltb origin row.event_id)
group_holds row (some origin) (t ∷ ts) =
    some (ltb origin row.event_id && any (test_holds row) (t ∷ ts))

-- The groups joined by OR; with no group the criteria are empty, which is a syntax error too.
unfoldable pub holds : Row → List Group → Option Bool
holds row [] = none
holds row (g ∷ []) = group_holds row g.after g.tests
holds row (g ∷ h ∷ gs) = do
  first ← group_holds row g.after g.tests
  others ← holds row (h ∷ gs)
  some (first || others)

-- The row that an append writes for an event.
abbrev pub row_of : {E : Type 0} → Event E → PersistedEvent E → Row
row_of ev e = record {
  event_id = e.id;
  event_type = ev.name e.event;
  column = Identifier.get (ev.domain_identifiers e.event);
}
