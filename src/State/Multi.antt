-- ===== src/State/Multi.antt =====
-- Groups of state parts of disintegrate/src/state.rs as a whole: their laws.
use disintegrate.Prelude.{
  if◌then◌else◌, ◌≡◌, sym, refl, ap, ◌∙◌, ◌≤◌, ◌<◌, max, true, false, some, arith, Bool-cases, inl,
  inr,
}
use disintegrate.Event.{EventId, Event, PersistedEvent}
use disintegrate.Stream.Query
use disintegrate.Stream.Query.{StreamQuery}
use disintegrate.Stream.Laws.{cast-eq, matches-change_origin, change_origin-change_origin}
use disintegrate.State.{
  StateMutate, KeepsQuery, StatePart, query_part, matches_event, mutate_matching, MultiState,
  single, new,
}
use disintegrate.State.Part.{
  matches_event-eq, matches_event_stale, mutate_matching_skip, mutate_matching_version,
  query-mutate_matching,
}

-- The query that a decision on the state of `m` validates with: the parts start over.
abbrev pub base_query : {S M E : Type 0} → MultiState S M E → M → StreamQuery
base_query ms m = ms.query_all (ms.into_state_part (ms.into_state m))

pub record IsLawful {S M E : Type 0} (ms : MultiState S M E) (ev : Event E) : Type 0 where
  -- An event that the union of the queries does not match changes nothing.
  pub skips :
      (m : M) (e : PersistedEvent E)
      → Query.matches ev (ms.query_all m) e ≡ false
      → ms.mutate_all m e ≡ some m
  -- An event that it matches raises the version to at least its id, and no other does.
  pub advances :
      (m m' : M) (e : PersistedEvent E)
      → ms.mutate_all m e ≡ some m'
      → Query.matches ev (ms.query_all m) e ≡ true
      → ms.version m' ≡ max (ms.version m) e.id
  -- A fresh group starts at the id 0, and holds the given states.
  pub starts : (s : S) → ms.version (ms.into_state_part s) ≡ 0
  pub returns : (s : S) → ms.into_state (ms.into_state_part s) ≡ s
  -- The query is a matter of the identifiers, which no event changes.
  pub stable :
      (m m' : M) (e : PersistedEvent E)
      → ms.mutate_all m e ≡ some m'
      → base_query ms m' ≡ base_query ms m
  -- An event that the queries do not match is not matched after other events either.
  pub narrows :
      (m m' : M) (e f : PersistedEvent E)
      → ms.mutate_all m e ≡ some m'
      → Query.matches ev (ms.query_all m) f ≡ false
      → Query.matches ev (ms.query_all m') f ≡ false
  -- An event that the group has taken is not matched again.
  pub settles :
      (m m' : M) (e : PersistedEvent E)
      → ms.mutate_all m e ≡ some m'
      → Query.matches ev (ms.query_all m') e ≡ false
  -- Past the version of the group, the query of the parts is the base query from there on.
  pub restarts :
      (m : M) (v : EventId) (e : PersistedEvent E)
      → ms.version m ≤ v
      → v < e.id
      → Query.matches ev (ms.query_all m) e
        ≡ Query.matches ev (Query.change_origin v (base_query ms m)) e

module _ {S QE E : Type 0} (sm : StateMutate S QE E) (ev : Event E) where
  pub part_restarts :
      (p : StatePart S) (v : EventId) (e : PersistedEvent E)
      → p.version ≤ v
      → v < e.id
      → Query.matches ev (query_part sm ev p) e
        ≡ Query.matches ev (Query.change_origin v (Query.change_origin 0 (sm.query p.inner))) e
  unfolding query_part
  part_restarts p v e le lt =
      rw change_origin-change_origin
        (ground (arith, matches-change_origin ev e (sm.query p.inner) p.version v))

  pub part_stable :
      KeepsQuery sm
      → (p p' : StatePart S) (e : PersistedEvent E) → mutate_matching sm ev p e ≡ some p'
      → query_part sm ev (new 0 p'.inner) ≡ query_part sm ev (new 0 p.inner)
  unfolding query_part new
  part_stable k p p' e h = ap (Query.change_origin 0) (query-mutate_matching sm ev k p p' e h)

  pub part_version :
      (p p' : StatePart S) (e : PersistedEvent E)
      → mutate_matching sm ev p e ≡ some p'
      → p'.version
        ≡ (if Query.matches ev (query_part sm ev p) e then max p.version e.id else p.version)
  part_version p p' e h = elim (Bool-cases (matches_event sm ev p e)) [
    | inl y ↦ ground (arith, matches_event-eq sm ev p e, mutate_matching_version sm ev p p' e h y)
    | inr n ↦ ground (arith, matches_event-eq sm ev p e, mutate_matching_skip sm ev p e n)
  ]

  pub part_narrows :
      KeepsQuery sm
      → (p p' : StatePart S) (e f : PersistedEvent E) → mutate_matching sm ev p e ≡ some p'
      → Query.matches ev (query_part sm ev p) f ≡ false
      → Query.matches ev (query_part sm ev p') f ≡ false
  unfolding query_part
  part_narrows k p p' e f h n =
      let up : p.version ≤ p'.version = ground (arith, part_version p p' e h) in
      rw (query-mutate_matching sm ev k p p' e h)
        (ground (arith, matches-change_origin ev f (sm.query p.inner) p.version p'.version up))

  pub part_settles :
      KeepsQuery sm
      → (p p' : StatePart S) (e : PersistedEvent E) → mutate_matching sm ev p e ≡ some p'
      → Query.matches ev (query_part sm ev p') e ≡ false
  part_settles k p p' e h = elim (Bool-cases (Query.matches ev (query_part sm ev p) e)) [
    | inr n ↦ part_narrows k p p' e e h n
    | inl y ↦
        let reached : e.id ≤ p'.version = ground (arith, part_version p p' e h) in
        sym (matches_event-eq sm ev p' e) ∙ matches_event_stale sm ev p' e reached
  ]

  -- A group of one state part is lawful.
  pub single-IsLawful : KeepsQuery sm → IsLawful (single sm ev) ev
  unfolding single
  single-IsLawful k = record {
    skips = λ m e h. mutate_matching_skip sm ev m e h;
    advances = λ m m' e h y. omega (arith, mutate_matching_version sm ev m m' e h y);
    starts = λ s. refl;
    returns = λ s. refl;
    stable = λ m m' e h. ap Query.cast (part_stable k m m' e h);
    settles = λ m m' e h. simp cast-eq (part_settles k m m' e h);
    narrows = λ m m' e f h n. simp cast-eq (part_narrows k m m' e f h (simp cast-eq at n));
    restarts = λ m v e le lt. simp cast-eq (part_restarts m v e le lt);
  }
