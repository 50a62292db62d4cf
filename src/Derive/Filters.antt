-- ===== src/Derive/Filters.antt =====
-- What the queries of derived states select: disintegrate-macros/src/state_query.rs, by the macros of
-- disintegrate/src/stream_query.rs.
use disintegrate.Prelude.{
  String, ◌≡◌, ◌↔◌, refl, ◌<◌, Bool, true, false, ◌||◌, none, some, List, [], ◌∷◌, ◌==◌, eq_iff,
  All, any, map, contains, arith, Option-cases, inl, inr,
}
use disintegrate.Prelude.Result.{ok}
use disintegrate.Identifier
use disintegrate.Identifier.{
  Identifier, IdentifierType, IdentifierValue, DomainIdentifier, DomainIdentifierSet, get-insert,
}
use disintegrate.Event.{EventSchema, DomainIdentifierInfo, Event, PersistedEvent}
use disintegrate.Stream.Filter
use disintegrate.Stream.Filter.{differs}
use disintegrate.Stream.Query
use disintegrate.Stream.Laws.{differs_iff}
use disintegrate.Derive.{Field, bound, into_inner}
use disintegrate.Derive.Naming.{find_type, is_some, same_ident}
use disintegrate.Slices.{eq}
use disintegrate.Slices.Texts.{include_lem, eq-compare}
use disintegrate.Derive.Queries.{
  StateQueryArgs, StateQuery, idents_exist, filter, query, query_all, impl_state_query,
  state_query_inner, state_query_name,
}

-- No two of the identifiers have the same key.
abbrev pub Distinct : List DomainIdentifier → Type 0
Distinct [] = Unit
Distinct (d ∷ ds) = (any (λ (o : DomainIdentifier). o.key == d.key) ds ≡ false) × Distinct ds

any-insert :
    (p : Identifier × IdentifierValue → Bool) (m : DomainIdentifierSet) (d : DomainIdentifier)
    → Identifier.get m d.key ≡ none
    → any p (Identifier.insert m d) ≡ (p (d.key, d.value) || any p m)
unfolding Identifier.insert Identifier.get
any-insert p [] d h = refl
any-insert p ((j, w) ∷ m) d h = ground (arith, any-insert p m d, eq_iff d.key j, eq_iff j d.key)

-- None of the keys is in the set.
abbrev Absent : DomainIdentifierSet → List DomainIdentifier → Type 0
Absent m ds = All (λ (d : DomainIdentifier). Identifier.get m d.key ≡ none) ds

Absent-insert :
    (m : DomainIdentifierSet) (d : DomainIdentifier) (ds : List DomainIdentifier)
    → any (λ (o : DomainIdentifier). o.key == d.key) ds ≡ false
    → Absent m ds
    → Absent (Identifier.insert m d) ds
Absent-insert m d [] apart h = tt
Absent-insert m d (o ∷ ds) apart h = (
  ground (arith, get-insert m d o.key, eq_iff d.key o.key, eq_iff o.key d.key, h.0),
  Absent-insert m d ds (ground arith) h.1,
)

any-insert_all :
    (p : Identifier × IdentifierValue → Bool) (m : DomainIdentifierSet) (ds : List DomainIdentifier)
    → Distinct ds
    → Absent m ds
    → any p (Identifier.insert_all m ds)
      ≡ (any (λ (d : DomainIdentifier). p (d.key, d.value)) ds || any p m)
unfolding Identifier.insert_all
any-insert_all p m [] distinct absent = refl
any-insert_all p m (d ∷ ds) distinct absent = ground (
  arith,
  any-insert_all p (Identifier.insert m d) ds distinct.1 (Absent-insert m d ds distinct.0 absent.1),
  any-insert p m d absent.0,
)

Absent-empty : (ds : List DomainIdentifier) → Absent [] ds
unfolding Identifier.get
Absent-empty [] = tt
Absent-empty (d ∷ ds) = (refl, Absent-empty ds)

-- The set of an event has every one of the identifiers with its value.
abbrev pub HasAll : DomainIdentifierSet → List DomainIdentifier → Type 0
HasAll set ds = All (λ (d : DomainIdentifier). Identifier.get set d.key ≡ some d.value) ds

none_differs :
    (set : DomainIdentifierSet) (ds : List DomainIdentifier)
    → (any (λ (d : DomainIdentifier). differs (Identifier.get set d.key) d.value) ds ≡ false)
      ↔ HasAll set ds
none_differs set [] = ground arith
none_differs set (d ∷ ds) =
    let one = differs_iff (Identifier.get set d.key) d.value in
    let rest = none_differs set ds in
    (λ h. (one.0 (ground arith), rest.0 (ground arith)), λ h. ground (arith, one.1 h.0, rest.1 h.1))

module _ {E : Type 0} (ev : Event E) (e : PersistedEvent E) where
  -- What the filter of a schema and of identifiers with different keys selects.
  query-matches :
      (schema : EventSchema) (ds : List DomainIdentifier) (q : Query.StreamQuery)
      → query schema ds ≡ some q
      → Distinct ds
      → (Query.matches ev q e ≡ true) ↔ (
          (contains schema.events (ev.name e.event) ≡ true)
          × HasAll (ev.domain_identifiers e.event) ds
          × (0 < e.id))
  unfolding query filter Query.matches Query.query Filter.matches Filter.cast Filter.new
      Identifier.domain_identifiers
  query-matches schema ds q built distinct =
      let differing : Identifier × IdentifierValue → Bool =
        λ p. differs (Identifier.get (ev.domain_identifiers e.event) p.0) p.1 in
      let found = any-insert_all differing [] ds distinct (Absent-empty ds) in
      let shape = none_differs (ev.domain_identifiers e.event) ds in
      (
        λ h. (ground arith, shape.0 (ground arith), ground arith),
        λ h. let quiet = shape.1 h.1 in ground arith,
      )

  query_all-matches :
      (schema : EventSchema)
      → (Query.matches ev (query_all schema) e ≡ true)
        ↔ ((contains schema.events (ev.name e.event) ≡ true) × Unit {0} × (0 < e.id))
  unfolding query_all Query.matches Query.query Filter.matches Filter.new
  query_all-matches schema = ground arith

  impl_state_query-matches :
      (schema : EventSchema) (ds : List DomainIdentifier) (q : Query.StreamQuery)
      → impl_state_query schema ds ≡ some q
      → Distinct ds
      → (Query.matches ev q e ≡ true) ↔ (
          (contains schema.events (ev.name e.event) ≡ true)
          × HasAll (ev.domain_identifiers e.event) ds
          × (0 < e.id))
  unfolding impl_state_query
  impl_state_query-matches schema [] q built distinct =
      let one : query_all schema ≡ q = ground arith in rw (← one) (query_all-matches schema)
  impl_state_query-matches schema (d ∷ ds) q built distinct =
      query-matches schema (d ∷ ds) q built distinct

-- The query that is derived for a state with one attribute selects exactly the events of the attribute's
-- event type that have all the identifier fields of the state, each with the state's value, and an id
-- above 0; its name is the last renaming, or the name of the struct without one. The fields have
-- different names.
pub state_query-matches :
    {V E : Type 0} (ev : Event E) (e : PersistedEvent E)
    (into_identifier_value : V → IdentifierValue) (ident : String) (args : StateQueryArgs)
    (fields : List Field) (vs : List (String × V)) (sq : StateQuery)
    → state_query_inner into_identifier_value ident (args ∷ []) fields vs ≡ ok sq
    → Distinct (bound into_identifier_value (λ v. []) fields vs)
    → (sq.name ≡ state_query_name ident args.optional_args)
      × ((Query.matches ev sq.query e ≡ true) ↔ (
          (contains args.event.events (ev.name e.event) ≡ true)
          × HasAll (ev.domain_identifiers e.event) (bound into_identifier_value (λ v. []) fields vs)
          × (0 < e.id)))
unfolding state_query_inner
state_query-matches ev e into_identifier_value ident args fields vs sq built distinct =
    let ds = bound into_identifier_value (λ v. []) fields vs in
    elim (Option-cases (impl_state_query args.event ds)) [
      | inl o ↦ absurd (ground arith)
      | inr (q, o) ↦
          let shape : sq ≡ record { name = state_query_name ident args.optional_args; query = q } =
            ground arith in
          rw shape (refl, impl_state_query-matches ev e args.event ds q o distinct)
    ]

any-find_type :
    (infos : List DomainIdentifierInfo) (k : Identifier)
    → any (λ x. eq x (into_inner k)) (map (λ (a : DomainIdentifierInfo). into_inner a.ident) infos)
      ≡ is_some (find_type infos k)
any-find_type [] k = refl
any-find_type (a ∷ infos) k = ground (
  arith,
  any-find_type infos k,
  eq-compare (into_inner a.ident) (into_inner k),
  same_ident a (record { ident = k; type_info = IdentifierType.string }),
)

-- The schema knows all the identifiers.
abbrev pub Known : EventSchema → List DomainIdentifier → Type 0
Known schema ds =
    All (λ (d : DomainIdentifier). is_some (find_type schema.domain_identifiers d.key) ≡ true) ds

idents_exist-Known :
    (schema : EventSchema) (ds : List DomainIdentifier)
    → (idents_exist schema ds ≡ true) ↔ Known schema ds
idents_exist-Known schema [] = ground arith
idents_exist-Known schema (d ∷ ds) =
    let one =
      include_lem (map (λ (a : DomainIdentifierInfo). into_inner a.ident) schema.domain_identifiers)
        (into_inner d.key ∷ []) in
    let known = any-find_type schema.domain_identifiers d.key in
    let rest = idents_exist-Known schema ds in
    (λ h. (ground arith, rest.0 (ground arith)), λ h. ground (arith, rest.1 h.1, h.0))

impl_state_query-Known :
    (schema : EventSchema) (ds : List DomainIdentifier)
    → (is_some (impl_state_query schema ds) ≡ true) ↔ Known schema ds
unfolding impl_state_query query filter
impl_state_query-Known schema [] = ground arith
impl_state_query-Known schema (d ∷ ds) =
    let known = idents_exist-Known schema (d ∷ ds) in
    (λ h. known.0 (ground arith), λ h. let exist = known.1 h in ground arith)

-- The code of a derived state with one attribute builds exactly when the schema of its event type knows
-- all of its identifier fields.
pub state_query_builds :
    {V : Type 0} (into_identifier_value : V → IdentifierValue) (ident : String)
    (args : StateQueryArgs) (fields : List Field) (vs : List (String × V))
    → ((sq : StateQuery) × (state_query_inner into_identifier_value ident (args ∷ []) fields vs
          ≡ ok sq))
      ↔ Known args.event (bound into_identifier_value (λ v. []) fields vs)
unfolding state_query_inner
state_query_builds into_identifier_value ident args fields vs =
    let ds = bound into_identifier_value (λ v. []) fields vs in
    let known = impl_state_query-Known args.event ds in
    (
      λ (sq, built). known.0 (ground arith),
      λ all_known.
          let builds = known.1 all_known in
          elim (Option-cases (impl_state_query args.event ds)) [
            | inl o ↦ absurd (ground arith)
            | inr (q, o) ↦ (
              record { name = state_query_name ident args.optional_args; query = q },
              ground arith,
            )
          ],
    )
