-- ===== src/Postgres/Criteria/Exact.antt =====
-- What the SQL criteria of disintegrate-postgres/src/event_store/query.rs select, filter by filter.
use disintegrate.Prelude.{
  ◌≡◌, refl, ap, Bool, true, false, not, ◌&&◌, String, Option, none, some, List, [], ◌∷◌, any, all,
  All, filter, contains, is_empty, ltb, ◌==◌, eq_iff, arith, Bool-cases, Option-cases,
  if◌then◌else◌, inl, inr,
}
use disintegrate.Identifier.{Identifier, IdentifierValue}
use disintegrate.Event.{EventInfo, EventSchema, event_info, has_domain_identifier}
use disintegrate.Stream.Filter.{StreamFilter, differs, is_excluded}
use disintegrate.Postgres.Criteria.{
  TypeTest, Group, without, kept_events, type_test, type_tests, group, groups,
}
use disintegrate.Postgres.Criteria.Rows.{Row, equals, test_holds, group_holds, holds}

-- The identifiers of the filter that the schema declares for the row's type have their values.
abbrev pub declared_hold : Option EventInfo → StreamFilter → Row → Bool
declared_hold none f row = false
declared_hold (some info) f row =
    all (λ p. equals (row.column p.0) p.1)
      (filter (λ p. has_domain_identifier info p.0) f.identifiers)

-- What the criteria of one filter select.
abbrev pub selects_row : EventSchema → StreamFilter → Row → Bool
selects_row schema f row =
    contains (kept_events f) row.event_type
    && declared_hold (event_info schema row.event_type) f row
    && (if ltb 0 f.origin then ltb f.origin row.event_id else true)

module _ (schema : EventSchema) (row : Row) where
  test_holds_lem :
      (f : StreamFilter) (event : String) (t : TypeTest)
      → type_test schema f event ≡ some t
      → test_holds row t
        ≡ (event == row.event_type && declared_hold (event_info schema row.event_type) f row)
  unfolding type_test
  test_holds_lem f event t h = elim (Option-cases (event_info schema event)) [
    | inl unknown ↦ absurd (ground arith)
    | inr (info, known) ↦ elim (Bool-cases (event == row.event_type)) [
      | inl y ↦
          let same : event ≡ row.event_type = (eq_iff event row.event_type).0 y in
          let known' : event_info schema row.event_type ≡ some info = rw (← same) known in
          rw known' (ground arith)
      | inr n ↦ ground arith
    ]
  ]

  tests_hold :
      (f : StreamFilter) (events : List String) (ts : List TypeTest)
      → type_tests schema f events ≡ some ts
      → any (test_holds row) ts
        ≡ (contains events row.event_type && declared_hold (event_info schema row.event_type) f row)
  unfolding type_tests
  tests_hold f [] ts h = ground arith
  tests_hold f (event ∷ events) ts h = elim (Option-cases (type_test schema f event)) [
    | inl unknown ↦ absurd (ground arith)
    | inr (t, known) ↦ elim (Option-cases (type_tests schema f events)) [
      | inl unknown ↦ absurd (ground arith)
      | inr (rest, knowns) ↦
          ground (arith, test_holds_lem f event t known, tests_hold f events rest knowns)
    ]
  ]

  type_tests-is_empty :
      (f : StreamFilter) (events : List String) (ts : List TypeTest)
      → type_tests schema f events ≡ some ts
      → is_empty ts ≡ is_empty events
  unfolding type_tests
  type_tests-is_empty f [] ts h = ground arith
  type_tests-is_empty f (event ∷ events) ts h = ground arith

  -- Without a test the criteria of a filter are its origin alone, or a syntax error.
  group_holds_lem :
      (f : StreamFilter) (g : Group)
      → group schema f ≡ some g
      → is_empty (kept_events f) ≡ false
      → group_holds row g.after g.tests ≡ some (selects_row schema f row)
  unfolding group
  group_holds_lem f g h some_event = elim (Option-cases (type_tests schema f (kept_events f))) [
    | inl unknown ↦ absurd (ground arith)
    | inr (ts, known) ↦ ground (
      arith,
      type_tests-is_empty f (kept_events f) ts known,
      tests_hold f (kept_events f) ts known,
    )
  ]

  -- The groups of a list of filters are those of its head and its tail.
  pub groups_inv :
      (f : StreamFilter) (fs : List StreamFilter) (gs : List Group)
      → groups schema (f ∷ fs) ≡ some gs
      → (g : Group) × (rest : List Group) × (group schema f ≡ some g)
        × (groups schema fs ≡ some rest)
        × (gs ≡ g ∷ rest)
  unfolding groups
  groups_inv f fs gs h = elim (Option-cases (group schema f)) [
    | inl unknown ↦ absurd (ground arith)
    | inr (g, known) ↦ elim (Option-cases (groups schema fs)) [
      | inl unknown ↦ absurd (ground arith)
      | inr (rest, knowns) ↦ (g, rest, known, knowns, ground arith)
    ]
  ]

  -- The criteria of several filters select what one of them selects.
  pub holds_lem :
      (f : StreamFilter) (fs : List StreamFilter) (gs : List Group)
      → All (λ g. is_empty (kept_events g) ≡ false) (f ∷ fs)
      → groups schema (f ∷ fs) ≡ some gs
      → holds row gs ≡ some (any (λ g. selects_row schema g row) (f ∷ fs))
  unfolding holds groups
  holds_lem f [] gs ne h =
      let (g, rest, known, knowns, shape) = groups_inv f [] gs h in
      let last : rest ≡ [] = cc knowns in
      rw (shape, last) (ground (arith, group_holds_lem f g known ne.0))
  holds_lem f (f' ∷ fs) gs ne h =
      let (g, rest, known, knowns, shape) = groups_inv f (f' ∷ fs) gs h in
      let (g', rest', known', knowns', shape') = groups_inv f' fs rest knowns in
      let ih = holds_lem f' fs rest ne.1 knowns in
      rw (shape, shape') (rw (group_holds_lem f g known ne.0, rw shape' at ih) refl)

-- A name is kept when the filter lists it and does not exclude it.
pub contains-kept_events :
    (ex : Option (List String)) (events : List String) (name : String)
    → contains (without ex events) name ≡ (contains events name && not (is_excluded ex name))
contains-kept_events none events name = ground arith
contains-kept_events (some ex) [] name = refl
contains-kept_events (some ex) (event ∷ events) name = elim (Bool-cases (event == name)) [
  | inl y ↦
      let same : event ≡ name = (eq_iff event name).0 y in
      let alike : contains ex event ≡ contains ex name = ap (contains ex) same in
      ground (arith, contains-kept_events (some ex) events name)
  | inr n ↦ ground (arith, contains-kept_events (some ex) events name)
]

module _ (have : Identifier → Option IdentifierValue) (declared : Identifier → Bool) where
  equals-differs :
      (o : Option IdentifierValue) (v : IdentifierValue) → equals o v ≡ not (differs o v)
  equals-differs none v = refl
  equals-differs (some w) v = ground arith

  pub all-equals_of_none-differs :
      (l : List (Identifier × IdentifierValue))
      → any (λ p. differs (have p.0) p.1) l ≡ false
      → all (λ p. equals (have p.0) p.1) (filter (λ p. declared p.0) l) ≡ true
  all-equals_of_none-differs [] h = refl
  all-equals_of_none-differs ((k, v) ∷ l) h =
      ground (arith, equals-differs (have k) v, all-equals_of_none-differs l)

  pub all-equals-declared :
      (l : List (Identifier × IdentifierValue))
      → all (λ p. declared p.0) l ≡ true
      → all (λ p. equals (have p.0) p.1) (filter (λ p. declared p.0) l)
        ≡ not (any (λ p. differs (have p.0) p.1) l)
  all-equals-declared [] h = refl
  all-equals-declared ((k, v) ∷ l) h =
      ground (arith, equals-differs (have k) v, all-equals-declared l)
