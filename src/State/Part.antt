-- ===== src/State/Part.antt =====
-- About `StatePart` of disintegrate/src/state.rs.
use disintegrate.Prelude.{
  ◌+◌, ◌%◌, ◌^◌, sym, ◌≡◌, ap, ◌≤◌, ◌<◌, true, false, some, arith, Bool-cases, Option-cases, inl,
  inr,
}
use disintegrate.Event.{Event, PersistedEvent}
use disintegrate.Stream.Query
use disintegrate.Stream.Laws.{cast-eq, matches-change_origin}
use disintegrate.State.{
  StateMutate, KeepsQuery, StatePart, query_part, matches_event, mutate_part, mutate_matching,
}

module _ {S QE E : Type 0} (sm : StateMutate S QE E) (ev : Event E) where
  -- The part's query from its version on selects what `matches_event` tests.
  pub matches_event-eq :
      (p : StatePart S) (e : PersistedEvent E)
      → matches_event sm ev p e ≡ Query.matches ev (query_part sm ev p) e
  unfolding matches_event
  matches_event-eq p e = ap (λ q. Query.matches ev q e) (cast-eq (query_part sm ev p))

  -- An event up to the part's version does not match.
  pub matches_event_stale :
      (p : StatePart S) (e : PersistedEvent E) → e.id ≤ p.version → matches_event sm ev p e ≡ false
  matches_event_stale p e h =
      unfold query_part in
      ground (
        arith,
        matches_event-eq p e,
        matches-change_origin ev e (sm.query p.inner) p.version p.version,
      )

  pub mutate_matching_skip :
      (p : StatePart S) (e : PersistedEvent E)
      → matches_event sm ev p e ≡ false
      → mutate_matching sm ev p e ≡ some p
  unfolding mutate_matching
  mutate_matching_skip p e h = rw h

  pub mutate_matching_match :
      (p : StatePart S) (e : PersistedEvent E)
      → matches_event sm ev p e ≡ true
      → mutate_matching sm ev p e ≡ mutate_part sm ev p e
  unfolding mutate_matching
  mutate_matching_match p e h = rw h

  -- An event that matches is later than the part and becomes its version.
  pub mutate_matching_version :
      (p p' : StatePart S) (e : PersistedEvent E)
      → mutate_matching sm ev p e ≡ some p'
      → matches_event sm ev p e ≡ true
      → (p'.version ≡ e.id) × (p.version < e.id)
  unfolding mutate_matching mutate_part
  mutate_matching_version p p' e h m = (ground arith, ground (arith, matches_event_stale p e))

  -- A mutated part has the event's id and the payload that `mutate` gave.
  pub mutate_part_inv :
      (p p' : StatePart S) (e : PersistedEvent E)
      → mutate_part sm ev p e ≡ some p'
      → (qe : QE) × (sm.try_into e.event ≡ some qe)
        × (sm.mutate p.inner qe ≡ some p'.inner)
        × (p'.applied_events ≡ (p.applied_events + 1) % 2 ^ 64)
  unfolding mutate_part
  mutate_part_inv p p' e h = elim (Option-cases (sm.try_into e.event)) [
    | inl no_event ↦ absurd (ground arith)
    | inr (qe, event) ↦ (qe, event, ground arith, ground arith)
  ]

  -- No event changes the query of a part.
  pub query-mutate_matching :
      KeepsQuery sm
      → (p p' : StatePart S) (e : PersistedEvent E) → mutate_matching sm ev p e ≡ some p'
      → sm.query p'.inner ≡ sm.query p.inner
  query-mutate_matching k p p' e h = elim (Bool-cases (matches_event sm ev p e)) [
    | inl y ↦
        let r = mutate_part_inv p p' e (rw (← h) (sym (mutate_matching_match p e y))) in
        k.kept p.inner p'.inner r.0 r.2
    | inr n ↦ let same : p ≡ p' = cc (h, mutate_matching_skip p e n) in rw (← same)
  ]
