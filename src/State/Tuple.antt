-- ===== src/State/Tuple.antt =====
-- About tuples of state parts, which disintegrate/src/state.rs builds by macros.
use disintegrate.Prelude.{
  ◌≡◌, ap₂, ◌∙◌, ◌≤◌, ◌<◌, max, true, false, ◌||◌, some, arith, Bool-cases, Option-cases, inl, inr,
}
use disintegrate.Event.{EventId, Event, PersistedEvent}
use disintegrate.Stream.Query
use disintegrate.Stream.Query.{StreamQuery}
use disintegrate.Stream.Laws.{matches-union, change_origin-union}
use disintegrate.State.{
  StateMutate, KeepsQuery, StatePart, query_part, mutate_matching, MultiState, single, pair,
}
use disintegrate.State.Part.{matches_event-eq, mutate_matching_skip}
use disintegrate.State.Multi.{
  IsLawful, single-IsLawful, base_query, part_restarts, part_stable, part_version, part_narrows,
  part_settles,
}

module _ {S M S' QE E : Type 0} (ms : MultiState S M E) (sm : StateMutate S' QE E) (ev : Event E)
    (lawful : IsLawful ms ev) (k : KeepsQuery sm) where
  pair-matches :
      (m : M × StatePart S') (e : PersistedEvent E)
      → Query.matches ev ((pair ms sm ev).query_all m) e
        ≡ (Query.matches ev (ms.query_all m.0) e || Query.matches ev (query_part sm ev m.1) e)
  unfolding pair
  pair-matches m e = matches-union ev e (ms.query_all m.0) (query_part sm ev m.1)

  pair_split :
      (m m' : M × StatePart S') (e : PersistedEvent E)
      → (pair ms sm ev).mutate_all m e ≡ some m'
      → (ms.mutate_all m.0 e ≡ some m'.0) × (mutate_matching sm ev m.1 e ≡ some m'.1)
  unfolding pair
  pair_split (a, p) (a', p') e h = elim (Option-cases (ms.mutate_all a e)) [
    | inl panics ↦ absurd (ground arith)
    | inr (b, first) ↦ elim (Option-cases (mutate_matching sm ev p e)) [
      | inl panics ↦ absurd (ground arith)
      | inr (q, last) ↦ ground arith
    ]
  ]

  -- For a lawful group with one more state part: an event that the union of the queries does not
  -- match leaves all the parts as they are.
  pair_skips :
      (m : M × StatePart S') (e : PersistedEvent E)
      → Query.matches ev ((pair ms sm ev).query_all m) e ≡ false
      → (pair ms sm ev).mutate_all m e ≡ some m
  pair_skips (a, p) e h =
      let parts = pair-matches (a, p) e in
      let first : ms.mutate_all a e ≡ some a = lawful.skips a e (ground arith) in
      let last : mutate_matching sm ev p e ≡ some p =
        mutate_matching_skip sm ev p e (matches_event-eq sm ev p e ∙ ground arith) in
      unfold pair in rw (first, last)

  -- For a lawful group with one more state part: an event that the union of the queries matches, and
  -- that the parts take without a panic, raises the version of the group to at least its id.
  pair_advances :
      (m m' : M × StatePart S') (e : PersistedEvent E)
      → (pair ms sm ev).mutate_all m e ≡ some m'
      → Query.matches ev ((pair ms sm ev).query_all m) e ≡ true
      → (pair ms sm ev).version m' ≡ max ((pair ms sm ev).version m) e.id
  pair_advances (a, p) (a', p') e h y =
      let parts = pair-matches (a, p) e in
      let (first, last) = pair_split (a, p) (a', p') e h in
      let raised = part_version sm ev p p' e last in
      elim (Bool-cases (Query.matches ev (ms.query_all a) e)) [
        | inl y' ↦ unfold pair in ground (arith, lawful.advances a a' e first y')
        | inr n ↦
            let same : a ≡ a' = cc (first, lawful.skips a e n) in
            unfold pair in rw (← same) (ground arith)
      ]

  pair_restarts :
      (m : M × StatePart S') (v : EventId) (e : PersistedEvent E)
      → (pair ms sm ev).version m ≤ v
      → v < e.id
      → Query.matches ev ((pair ms sm ev).query_all m) e
        ≡ Query.matches ev (Query.change_origin v (base_query (pair ms sm ev) m)) e
  unfolding pair
  pair_restarts (a, p) v e le lt =
      rw (change_origin-union, matches-union, matches-union)
        (ap₂ ◌||◌ (lawful.restarts a v e (omega arith) lt)
          (part_restarts sm ev p v e (omega arith) lt))

  pair_stable :
      (m m' : M × StatePart S') (e : PersistedEvent E)
      → (pair ms sm ev).mutate_all m e ≡ some m'
      → base_query (pair ms sm ev) m' ≡ base_query (pair ms sm ev) m
  pair_stable (a, p) (a', p') e h =
      let (first, last) = pair_split (a, p) (a', p') e h in
      unfold pair in ap₂ Query.union (lawful.stable a a' e first) (part_stable sm ev k p p' e last)

  pair_narrows :
      (m m' : M × StatePart S') (e f : PersistedEvent E)
      → (pair ms sm ev).mutate_all m e ≡ some m'
      → Query.matches ev ((pair ms sm ev).query_all m) f ≡ false
      → Query.matches ev ((pair ms sm ev).query_all m') f ≡ false
  pair_narrows (a, p) (a', p') e f h n =
      let (first, last) = pair_split (a, p) (a', p') e h in
      let left = lawful.narrows a a' e f first in
      let right = part_narrows sm ev k p p' e f last in
      pair-matches (a', p') f ∙ ground (arith, pair-matches (a, p) f, left, right)

  pair_settles :
      (m m' : M × StatePart S') (e : PersistedEvent E)
      → (pair ms sm ev).mutate_all m e ≡ some m'
      → Query.matches ev ((pair ms sm ev).query_all m') e ≡ false
  pair_settles (a, p) (a', p') e h =
      let (first, last) = pair_split (a, p) (a', p') e h in
      let left = lawful.settles a a' e first in
      let right = part_settles sm ev k p p' e last in pair-matches (a', p') e ∙ ground arith

  -- A lawful group with one more state part is lawful.
  pub pair-IsLawful : IsLawful (pair ms sm ev) ev
  pair-IsLawful = record {
    skips = pair_skips;
    advances = pair_advances;
    starts = λ s. unfold pair in omega (arith, lawful.starts s.0);
    returns = λ s. unfold pair in λ i. (lawful.returns s.0 i, s.1);
    stable = pair_stable;
    settles = pair_settles;
    narrows = pair_narrows;
    restarts = pair_restarts;
  }

-- The tuples that the macros build, of one or more state parts.
pub data IsTuple {E : Type 0} (ev : Event E) : (S M : Type 0) → MultiState S M E → Type 1 where
  one :
      {S QE : Type 0} (sm : StateMutate S QE E)
      → KeepsQuery sm
      → IsTuple ev S (StatePart S) (single sm ev)
  more :
      {S M S' QE : Type 0} (ms : MultiState S M E) (sm : StateMutate S' QE E)
      → IsTuple ev S M ms
      → KeepsQuery sm
      → IsTuple ev (S × S') (M × StatePart S') (pair ms sm ev)

IsTuple-IsLawful :
    {E : Type 0} (ev : Event E) {S M : Type 0} (ms : MultiState S M E)
    → IsTuple ev S M ms
    → IsLawful ms ev
IsTuple-IsLawful ev _ (IsTuple.one sm k) = single-IsLawful sm ev k
IsTuple-IsLawful ev _ (IsTuple.more ms sm t k) = pair-IsLawful ms sm ev (IsTuple-IsLawful ev ms t) k

-- For a tuple of state parts whose queries no event changes: an event that the union of the queries
-- matches, and that the parts take without a panic, raises the version of the tuple to its id if that is
-- later, and one that it does not match leaves the tuple as it is.
pub tuple_advances :
    {E S M : Type 0} (ev : Event E) (ms : MultiState S M E)
    → IsTuple ev S M ms
    → (m m' : M) (e : PersistedEvent E) → ms.mutate_all m e ≡ some m'
    → (Query.matches ev (ms.query_all m) e ≡ true → ms.version m' ≡ max (ms.version m) e.id)
      × (Query.matches ev (ms.query_all m) e ≡ false → m' ≡ m)
tuple_advances ev ms t m m' e ran =
    let lawful = IsTuple-IsLawful ev ms t in
    (lawful.advances m m' e ran, λ n. cc (ran, lawful.skips m e n))
