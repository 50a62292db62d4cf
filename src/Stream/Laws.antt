-- ===== src/Stream/Laws.antt =====
-- About the queries of disintegrate/src/stream_query.rs.
use disintegrate.Prelude.{
  ap, map-append, ◌⊎◌, inl, inr, Bool-cases, ◌≤◌, ◌<◌, String, ◌≡◌, refl, ◌↔◌, true, false, not,
  ◌&&◌, ◌||◌, Option, none, some, List, [], ◌∷◌, map, any, All, filter, arith, ltb, contains, ◌==◌,
  any-append, eq_iff,
}
use disintegrate.Identifier
use disintegrate.Identifier.{Identifier, IdentifierValue, DomainIdentifierSet, value_eq_iff}
use disintegrate.Event.{EventId, Event, PersistedEvent}
use disintegrate.Stream.Filter
use disintegrate.Stream.Filter.{StreamFilter, differs, is_excluded}
use disintegrate.Stream.Query
use disintegrate.Stream.Query.{StreamQuery, exclude_from}

-- The set holds every pair.
abbrev pub HoldsAll : DomainIdentifierSet → DomainIdentifierSet → Type 0
HoldsAll have want = All (λ p. Identifier.get have p.0 ≡ some p.1) want

-- The names kept by an exclusion decide for every name that the filter selects.
contains-filter :
    (events xs : List String) (s : String)
    → contains events s ≡ true
    → contains (filter (λ x. contains events x) xs) s ≡ contains xs s
contains-filter events [] s h = refl
contains-filter events (x ∷ xs) s h = elim (Bool-cases (x == s)) [
  | inl y ↦
      let same : x ≡ s = (eq_iff x s).0 y in
      let kept : contains events x ≡ true = rw same h in rw (kept, y)
  | inr n ↦ ground (arith, contains-filter events xs s h)
]

pub differs_iff :
    (o : Option IdentifierValue) (v : IdentifierValue) → (differs o v ≡ false) ↔ (o ≡ some v)
differs_iff none v = ground arith
differs_iff (some w) v = ground (arith, value_eq_iff w v)

any-differs_iff :
    (have want : DomainIdentifierSet)
    → (any (λ p. differs (Identifier.get have p.0) p.1) want ≡ false) ↔ HoldsAll have want
any-differs_iff have [] = (λ h. tt, λ h. refl)
any-differs_iff have ((k, v) ∷ want) =
    let d = differs_iff (Identifier.get have k) v in
    let r = any-differs_iff have want in
    (λ h. (d.0 (ground arith), r.0 (ground arith)), λ h. ground (arith, d.1 h.0, r.1 h.1))

-- What the closure of `matches` stands for.
pub record Selects {E : Type 0} (ev : Event E) (e : PersistedEvent E) (f : StreamFilter)
    : Type 0 where
  pub listed : contains f.events (ev.name e.event) ≡ true
  pub allowed : is_excluded f.excluded_events (ev.name e.event) ≡ false
  pub holds : HoldsAll (ev.domain_identifiers e.event) f.identifiers
  pub later : f.origin < e.id

map-cast : (fs : List StreamFilter) → map Filter.cast fs ≡ fs
unfolding Filter.cast
map-cast [] = refl
map-cast (f ∷ fs) = ap (◌∷◌ f) (map-cast fs)

abbrev of_filters : List StreamFilter → StreamQuery
of_filters fs = record { filters = fs }

pub cast-eq : (q : StreamQuery) → Query.cast q ≡ q
unfolding Query.cast
cast-eq q = ap of_filters (map-cast q.filters)

map-change_origin :
    (p o : EventId) (fs : List StreamFilter)
    → map (Filter.change_origin o) (map (Filter.change_origin p) fs)
      ≡ map (Filter.change_origin o) fs
unfolding Filter.change_origin
map-change_origin p o [] = refl
map-change_origin p o (f ∷ fs) = ap (◌∷◌ (Filter.change_origin o f)) (map-change_origin p o fs)

-- Only the last change of the origin counts.
pub change_origin-change_origin :
    (p o : EventId) (q : StreamQuery)
    → Query.change_origin o (Query.change_origin p q) ≡ Query.change_origin o q
unfolding Query.change_origin
change_origin-change_origin p o q = ap of_filters (map-change_origin p o q.filters)

module _ {E : Type 0} (ev : Event E) (e : PersistedEvent E) where
  pub Filter-matches_sound : (f : StreamFilter) → Filter.matches ev e f ≡ true → Selects ev e f
  unfolding Filter.matches
  Filter-matches_sound f h = record {
    listed = ground arith;
    allowed = ground arith;
    holds = (any-differs_iff (ev.domain_identifiers e.event) f.identifiers).0 (ground arith);
    later = ground arith;
  }

  pub Filter-matches_complete : (f : StreamFilter) → Selects ev e f → Filter.matches ev e f ≡ true
  unfolding Filter.matches
  Filter-matches_complete f s = ground (
    arith,
    s.listed,
    s.allowed,
    s.later,
    (any-differs_iff (ev.domain_identifiers e.event) f.identifiers).1 s.holds,
  )

  -- Some filter of the list selects the event.
  abbrev pub AnySelects : List StreamFilter → Type 0
  AnySelects [] = ⊥
  AnySelects (f ∷ fs) = Selects ev e f ⊎ AnySelects fs

  any-matches_sound : (fs : List StreamFilter) → any (Filter.matches ev e) fs ≡ true → AnySelects fs
  any-matches_sound [] h = cc
  any-matches_sound (f ∷ fs) h = elim (Bool-cases (Filter.matches ev e f)) [
    | inl y ↦ inl (Filter-matches_sound f y)
    | inr n ↦ inr (any-matches_sound fs (ground arith))
  ]

  any-matches_complete :
      (fs : List StreamFilter) → AnySelects fs → any (Filter.matches ev e) fs ≡ true
  any-matches_complete [] h = absurd h
  any-matches_complete (f ∷ fs) (inl s) = rw (Filter-matches_complete f s)
  any-matches_complete (f ∷ fs) (inr r) = ground (arith, any-matches_complete fs r)

  -- A query matches a persisted event exactly when one of its filters lists its name and does not
  -- exclude it, finds every identifier with its value among the event's, and starts before its id.
  pub matches_iff : (q : StreamQuery) → (Query.matches ev q e ≡ true) ↔ AnySelects q.filters
  unfolding Query.matches
  matches_iff q = (any-matches_sound q.filters, any-matches_complete q.filters)

  -- The union of two queries matches exactly the events that either of them matches.
  pub matches-union :
      (q r : StreamQuery)
      → Query.matches ev (Query.union q r) e ≡ (Query.matches ev q e || Query.matches ev r e)
  unfolding Query.matches Query.union
  matches-union q r =
      rw (map-cast q.filters, map-cast r.filters)
        (any-append (Filter.matches ev e) q.filters r.filters)

  Filter-matches-change_origin :
      (f : StreamFilter) (p o : EventId)
      → p ≤ o
      → Filter.matches ev e (Filter.change_origin o f)
        ≡ (Filter.matches ev e (Filter.change_origin p f) && ltb o e.id)
  unfolding Filter.matches Filter.change_origin
  Filter-matches-change_origin f p o h = ground arith

  any-change_origin :
      (fs : List StreamFilter) (p o : EventId)
      → p ≤ o
      → any (Filter.matches ev e) (map (Filter.change_origin o) fs)
        ≡ (any (Filter.matches ev e) (map (Filter.change_origin p) fs) && ltb o e.id)
  any-change_origin [] p o h = refl
  any-change_origin (f ∷ fs) p o h =
      ground (arith, Filter-matches-change_origin f p o h, any-change_origin fs p o h)

  -- To move the origin of a query forward from one id to another drops exactly the events up to the
  -- new origin.
  pub matches-change_origin :
      (q : StreamQuery) (p o : EventId)
      → p ≤ o
      → Query.matches ev (Query.change_origin o q) e
        ≡ (Query.matches ev (Query.change_origin p q) e && ltb o e.id)
  unfolding Query.matches Query.change_origin
  matches-change_origin q p o h = any-change_origin q.filters p o h

  Filter-matches-exclude :
      (xs : List String) (f : StreamFilter)
      → Filter.matches ev e (exclude_from xs f)
        ≡ (not (contains xs (ev.name e.event)) && Filter.matches ev e (exclude_from [] f))
  unfolding Filter.matches
  Filter-matches-exclude xs f = ground (
    arith,
    contains-filter f.events xs (ev.name e.event),
    Bool-cases (contains xs (ev.name e.event)),
  )

  any-exclude :
      (xs : List String) (fs : List StreamFilter)
      → any (Filter.matches ev e) (map (exclude_from xs) fs) ≡ (
          not (contains xs (ev.name e.event))
          && any (Filter.matches ev e) (map (exclude_from []) fs))
  any-exclude xs [] = ground arith
  any-exclude xs (f ∷ fs) = ground (arith, Filter-matches-exclude xs f, any-exclude xs fs)

  -- To exclude names from a query drops exactly the events of these names, and brings back what
  -- an earlier exclusion had dropped: the result is that of the query without exclusions.
  matches-exclude_events :
      (q : StreamQuery) (xs : List String)
      → Query.matches ev (Query.exclude_events xs q) e
        ≡ (not (contains xs (ev.name e.event)) && Query.matches ev (Query.exclude_events [] q) e)
  unfolding Query.matches Query.exclude_events
  matches-exclude_events q xs = any-exclude xs q.filters

  any-matches_event :
      (fs : List StreamFilter)
      → any (Filter.matches ev e) fs ≡ true
      → any (Filter.matches_event (ev.name e.event)) fs ≡ true
  unfolding Filter.matches Filter.matches_event
  any-matches_event [] h = cc
  any-matches_event (f ∷ fs) h = ground (arith, any-matches_event fs)

  -- A query that matches an event also matches its name: a notification by name misses no event.
  pub matches_event_of_matches :
      (q : StreamQuery)
      → Query.matches ev q e ≡ true
      → Query.matches_event q (ev.name e.event) ≡ true
  unfolding Query.matches Query.matches_event
  matches_event_of_matches q h = any-matches_event q.filters h

map-exclude-exclude :
    (xs ys : List String) (fs : List StreamFilter)
    → map (exclude_from ys) (map (exclude_from xs) fs) ≡ map (exclude_from ys) fs
map-exclude-exclude xs ys [] = refl
map-exclude-exclude xs ys (f ∷ fs) = ap (◌∷◌ (exclude_from ys f)) (map-exclude-exclude xs ys fs)

-- A second exclusion replaces the first: of two exclusions in a row only the last counts.
exclude_events-exclude_events :
    (xs ys : List String) (q : StreamQuery)
    → Query.exclude_events ys (Query.exclude_events xs q) ≡ Query.exclude_events ys q
unfolding Query.exclude_events
exclude_events-exclude_events xs ys q = ap of_filters (map-exclude-exclude xs ys q.filters)

-- The origin of a union is moved in both of its parts.
pub change_origin-union :
    (o : EventId) (q r : StreamQuery)
    → Query.change_origin o (Query.union q r)
      ≡ Query.union (Query.change_origin o q) (Query.change_origin o r)
unfolding Query.change_origin Query.union
change_origin-union o q r =
    ap of_filters (simp map-cast (map-append (Filter.change_origin o) q.filters r.filters))
