-- ===== src/Postgres/Criteria/Agreement.antt =====
-- About the SQL criteria of disintegrate-postgres/src/event_store/query.rs and `StreamQuery::matches`.
use disintegrate.Prelude.{
  ◌≡◌, ◌<◌, refl, ap, ◌∙◌, Bool, true, false, ◌||◌, Option, none, some, List, [], ◌∷◌, any, all,
  All, is_empty, ltb, contains, arith, String,
}
use disintegrate.Identifier
use disintegrate.Identifier.{Identifier, IdentifierValue}
use disintegrate.Event.{
  EventInfo, EventSchema, Event, PersistedEvent, event_info, has_domain_identifier,
}
use disintegrate.Stream.Filter
use disintegrate.Stream.Filter.{StreamFilter, differs}
use disintegrate.Stream.Query
use disintegrate.Stream.Query.{StreamQuery}
use disintegrate.Postgres.Criteria.{Group, kept_events, group, groups, type_tests, render, build}
use disintegrate.Postgres.Criteria.Text.{IsPlain, Level, Reads}
use disintegrate.Postgres.Criteria.Rendered.{render-Reads}
use disintegrate.Postgres.Criteria.Rows.{Row, holds, row_of}
use disintegrate.Postgres.Criteria.Exact.{
  selects_row, groups_inv, holds_lem, contains-kept_events, all-equals_of_none-differs,
}

-- The event's type declares every identifier that the filter asks for.
abbrev pub declares_all : Option EventInfo → StreamFilter → Bool
declares_all none f = false
declares_all (some info) f = all (λ p. has_domain_identifier info p.0) f.identifiers

nonempty_of_contains :
    (events : List String) (name : String) → contains events name ≡ true → is_empty events ≡ false
nonempty_of_contains [] name h = cc
nonempty_of_contains (event ∷ events) name h = refl

all_excluded_group :
    (schema : EventSchema) (f : StreamFilter) (g : Group) (row : Row)
    → kept_events f ≡ []
    → 0 < f.origin
    → group schema f ≡ some g
    → holds row (g ∷ []) ≡ some (ltb f.origin row.event_id)
unfolding group holds
all_excluded_group schema f g row nothing after known =
    let no_test = ap (type_tests schema f) nothing in ground (arith, no_test)

module _ {E : Type 0} (schema : EventSchema) (ev : Event E) (e : PersistedEvent E)
    (stored : 0 < e.id) where
  selects_row_complete :
      (f : StreamFilter) (info : EventInfo)
      → event_info schema (ev.name e.event) ≡ some info
      → Filter.matches ev e f ≡ true
      → selects_row schema f (row_of ev e) ≡ true
  unfolding Filter.matches
  selects_row_complete f info known m = rw known (
      ground (
        arith,
        contains-kept_events f.excluded_events f.events (ev.name e.event),
        all-equals_of_none-differs (Identifier.get (ev.domain_identifiers e.event))
            (has_domain_identifier info) f.identifiers,
      ))

  any-selects_complete :
      (fs : List StreamFilter) (info : EventInfo)
      → event_info schema (ev.name e.event) ≡ some info
      → any (Filter.matches ev e) fs ≡ true
      → any (λ f. selects_row schema f (row_of ev e)) fs ≡ true
  any-selects_complete [] info known m = cc
  any-selects_complete (f ∷ fs) info known m =
      ground (arith, selects_row_complete f info known, any-selects_complete fs info known)

  module _ (f : StreamFilter) (fs : List StreamFilter) (gs : List Group)
      (some_event : All (λ g. is_empty (kept_events g) ≡ false) (f ∷ fs))
      (built : groups schema (f ∷ fs) ≡ some gs) where
    -- If no filter excludes all of its events, the groups of a query hold of the row of every stored
    -- event that the query matches and whose type the schema knows.
    pub holds_complete :
        (info : EventInfo)
        → event_info schema (ev.name e.event) ≡ some info
        → Query.matches ev (record { filters = f ∷ fs }) e ≡ true
        → holds (row_of ev e) gs ≡ some true
    unfolding Query.matches
    holds_complete info known m =
        holds_lem schema (row_of ev e) f fs gs some_event built
        ∙ ap some (any-selects_complete (f ∷ fs) info known m)

    module _ (plain : IsPlain gs) where
      -- If no filter of a query excludes all of its events and its criteria are plain (no quote in
      -- a literal, identifiers that name columns), the criteria are built, and PostgreSQL's grammar
      -- reads their text as a condition that is true at the row of every stored event that the
      -- query matches and whose type the schema knows.
      pub criteria_complete :
          (info : EventInfo)
          → event_info schema (ev.name e.event) ≡ some info
          → Query.matches ev (record { filters = f ∷ fs }) e ≡ true
          → (text : String) × (build schema (record { filters = f ∷ fs }) ≡ some text)
            × Reads (row_of ev e) Level.condition text true
      unfolding build
      criteria_complete info known m = (
        render gs,
        rw built refl,
        render-Reads (row_of ev e) gs true plain (holds_complete info known m),
      )

  all_excluded_holds :
      (f : StreamFilter) (gs : List Group) (row : Row)
      → kept_events f ≡ []
      → 0 < f.origin
      → groups schema (f ∷ []) ≡ some gs
      → holds row gs ≡ some (ltb f.origin row.event_id)
  all_excluded_holds f gs row nothing after built =
      let (g, rest, known, knowns, shape) = groups_inv schema row f [] gs built in
      let last : rest ≡ [] = unfold groups in cc knowns in
      rw (shape, last) (all_excluded_group schema f g row nothing after known)

  -- A filter that excludes all of its events and has an origin matches nothing, but its criteria
  -- select every row after the origin, whatever its type.
  criteria_all_excluded :
      (f : StreamFilter) (gs : List Group) (row : Row)
      → kept_events f ≡ []
      → 0 < f.origin
      → groups schema (f ∷ []) ≡ some gs
      → (holds row gs ≡ some (ltb f.origin row.event_id))
        × (Query.matches ev (record { filters = f ∷ [] }) e ≡ false)
  unfolding Query.matches
  criteria_all_excluded f gs row nothing after built =
      let none_kept = ap (λ (events : List String). contains events (ev.name e.event)) nothing in
      (
        all_excluded_holds f gs row nothing after built,
        unfold Filter.matches in
            ground
              (arith, none_kept, contains-kept_events f.excluded_events f.events (ev.name e.event)),
      )

  undeclared_selected :
      (f : StreamFilter) (info : EventInfo) (key : Identifier) (value : IdentifierValue)
      → f.identifiers ≡ (key, value) ∷ []
      → event_info schema (ev.name e.event) ≡ some info
      → has_domain_identifier info key ≡ false
      → contains (kept_events f) (ev.name e.event) ≡ true
      → f.origin < e.id
      → (selects_row schema f (row_of ev e) || false) ≡ true
  undeclared_selected f info key value only known undeclared kept later =
      rw (known, only, undeclared) (ground arith)

  undeclared_unmatched :
      (f : StreamFilter) (key : Identifier) (value : IdentifierValue)
      → f.identifiers ≡ (key, value) ∷ []
      → Identifier.get (ev.domain_identifiers e.event) key ≡ none
      → (Filter.matches ev e f || false) ≡ false
  unfolding Filter.matches
  undeclared_unmatched f key value only absent = rw (only, absent) (ground arith)

  -- A filter with one identifier does not match an event without it, but if the filter selects the
  -- event's type, the schema does not declare the identifier for it, and the event is past the
  -- origin, its criteria select the event's row.
  pub criteria_undeclared :
      (f : StreamFilter) (gs : List Group) (info : EventInfo) (key : Identifier)
      (value : IdentifierValue)
      → f.identifiers ≡ (key, value) ∷ []
      → event_info schema (ev.name e.event) ≡ some info
      → has_domain_identifier info key ≡ false
      → Identifier.get (ev.domain_identifiers e.event) key ≡ none
      → contains (kept_events f) (ev.name e.event) ≡ true
      → f.origin < e.id
      → groups schema (f ∷ []) ≡ some gs
      → (holds (row_of ev e) gs ≡ some true)
        × (Query.matches ev (record { filters = f ∷ [] }) e ≡ false)
  unfolding Query.matches
  criteria_undeclared f gs info key value only known undeclared absent kept later built =
      let none_excluded : is_empty (kept_events f) ≡ false =
        nonempty_of_contains (kept_events f) _ kept in
      (
        holds_lem schema (row_of ev e) f [] gs (none_excluded, tt) built
            ∙ ap some (undeclared_selected f info key value only known undeclared kept later),
        undeclared_unmatched f key value only absent,
      )
