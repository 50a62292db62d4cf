-- ===== src/StateStore/Replay.antt =====
-- About `load` of disintegrate/src/state_store.rs and the log of the store.
use disintegrate.Prelude.{
  ◌≡◌, refl, ap, ◌∙◌, sym, ◌≤◌, false, Option, some, List, [], ◌∷◌, ◌++◌, map, any, filter, All,
  arith, Bool-cases, Option-cases, ◌>>=◌ as option_bind, inl, inr,
}
use disintegrate.Prelude.Result.{Result, ok, unwrap, ◌>>=◌}
use disintegrate.Event.{EventId, Event, PersistedEvent}
use disintegrate.Stream.Query
use disintegrate.Stream.Query.{StreamQuery}
use disintegrate.State.{MultiState, mutate_each}
use disintegrate.State.Multi.{IsLawful, base_query}
use disintegrate.EventStore.{EventStore, KeepsLog, Increasing}
use disintegrate.StateStore.{mutate_stream, mutate_state, load}

module _ {S M E : Type 0} (ms : MultiState S M E) (ev : Event E) (lawful : IsLawful ms ev) where
  -- One event at a time: the version stays below the event's id, and the base query stays.
  pub version-mutate_all :
      (m m' : M) (e : PersistedEvent E)
      → ms.mutate_all m e ≡ some m'
      → ms.version m ≤ e.id
      → ms.version m' ≤ e.id
  version-mutate_all m m' e h le = elim (Bool-cases (Query.matches ev (ms.query_all m) e)) [
    | inl y ↦ omega (arith, lawful.advances m m' e h y)
    | inr n ↦ let same : m ≡ m' = cc (h, lawful.skips m e n) in rw (← same) le
  ]

  -- A run sees only the events that the query of the group matches from the start.
  mutate_each-filter :
      (q : StreamQuery) (m : M) (events : List (PersistedEvent E))
      → ((f : PersistedEvent E)
          → Query.matches ev q f ≡ false
          → Query.matches ev (ms.query_all m) f ≡ false)
      → mutate_each ms m events ≡ mutate_each ms m (filter (Query.matches ev q) events)
  unfolding mutate_each
  mutate_each-filter q m [] narrow = refl
  mutate_each-filter q m (e ∷ events) narrow = elim (Bool-cases (Query.matches ev q e)) [
    | inr n ↦ rw (n, lawful.skips m e (narrow e n)) (mutate_each-filter q m events narrow)
    | inl y ↦ rw y (elim (Option-cases (ms.mutate_all m e)) [
      | inl panics ↦ rw panics refl
      | inr (m', step) ↦
          rw step
            (mutate_each-filter q m' events (λ f n. lawful.narrows m m' e f step (narrow f n)))
    ])
  ]

  -- Two lists with the same events that the query of the group matches give the same run.
  pub mutate_each_alike :
      (m : M) (xs ys : List (PersistedEvent E))
      → filter (Query.matches ev (ms.query_all m)) xs
        ≡ filter (Query.matches ev (ms.query_all m)) ys
      → mutate_each ms m xs ≡ mutate_each ms m ys
  mutate_each_alike m xs ys same =
      let few = mutate_each-filter (ms.query_all m) m in
      few xs (λ f n. n) ∙ ap (mutate_each ms m) same ∙ sym (few ys (λ f n. n))

  -- The rest of a run, after a step.
  abbrev run_after : List (PersistedEvent E) → Option M → Option M
  run_after events o = option_bind o λ m. mutate_each ms m events

  pub mutate_each-append :
      (m m' : M) (xs ys : List (PersistedEvent E))
      → mutate_each ms m xs ≡ some m'
      → mutate_each ms m (xs ++ ys) ≡ mutate_each ms m' ys
  unfolding mutate_each
  mutate_each-append m m' [] ys h = let same : m ≡ m' = cc h in rw same
  mutate_each-append m m' (e ∷ xs) ys h = elim (Option-cases (ms.mutate_all m e)) [
    | inl panics ↦ cc (ap (run_after xs) panics, h)
    | inr (m₁, step) ↦ rw step (mutate_each-append m₁ m' xs ys (sym (ap (run_after xs) step) ∙ h))
  ]

  -- What the query does not match before a run it does not match after the run.
  mutate_each-narrows :
      (m m' : M) (f : PersistedEvent E) (events : List (PersistedEvent E))
      → mutate_each ms m events ≡ some m'
      → Query.matches ev (ms.query_all m) f ≡ false
      → Query.matches ev (ms.query_all m') f ≡ false
  unfolding mutate_each
  mutate_each-narrows m m' f [] h n = let same : m ≡ m' = cc h in rw same at n
  mutate_each-narrows m m' f (e ∷ events) h n = elim (Option-cases (ms.mutate_all m e)) [
    | inl panics ↦ absurd (cc (ap (run_after events) panics, h))
    | inr (m₁, step) ↦
        mutate_each-narrows m₁ m' f events (sym (ap (run_after events) step) ∙ h)
          (lawful.narrows m m₁ e f step n)
  ]

  settled :
      (m m' : M) (events : List (PersistedEvent E))
      → mutate_each ms m events ≡ some m'
      → All (λ e. Query.matches ev (ms.query_all m') e ≡ false) events
  unfolding mutate_each
  settled m m' [] h = tt
  settled m m' (e ∷ events) h = elim (Option-cases (ms.mutate_all m e)) [
    | inl panics ↦ absurd (cc (ap (run_after events) panics, h))
    | inr (m₁, step) ↦
        let rest = sym (ap (run_after events) step) ∙ h in
        (
          mutate_each-narrows m₁ m' e events rest (lawful.settles m m₁ e step),
          settled m₁ m' events rest,
        )
  ]

  unmatched_quiet :
      (m : M) (events : List (PersistedEvent E))
      → All (λ e. Query.matches ev (ms.query_all m) e ≡ false) events
      → mutate_each ms m events ≡ some m
  unfolding mutate_each
  unmatched_quiet m [] h = refl
  unmatched_quiet m (e ∷ events) h = rw (lawful.skips m e h.0) (unmatched_quiet m events h.1)

  -- For a lawful group of states: a run over events that the group has already seen changes nothing,
  -- so that a state that was computed from the first events of a log can be carried on from the
  -- start of the log as well as from where it stopped.
  pub mutate_each_again :
      (m m' : M) (events later : List (PersistedEvent E))
      → mutate_each ms m events ≡ some m'
      → (mutate_each ms m' events ≡ some m')
        × (mutate_each ms m' (events ++ later) ≡ mutate_each ms m (events ++ later))
  mutate_each_again m m' events later h =
      let again = unmatched_quiet m' events (settled m m' events h) in
      (
        again,
        mutate_each-append m' m' events later again ∙ sym (mutate_each-append m m' events later h),
      )

  -- Events past the version that do not match the base query from the version on change nothing.
  pub mutate_each_quiet :
      (m : M) (lo : EventId) (events : List (PersistedEvent E))
      → ms.version m ≤ lo
      → Increasing lo events
      → any (Query.matches ev (Query.change_origin (ms.version m) (base_query ms m))) events ≡ false
      → mutate_each ms m events ≡ some m
  unfolding mutate_each
  mutate_each_quiet m lo [] le inc h = refl
  mutate_each_quiet m lo (e ∷ events) le inc h =
      let mine = lawful.restarts m (ms.version m) e (omega arith) (omega arith) in
      rw (lawful.skips m e (mine ∙ ground arith))
        (mutate_each_quiet m e.id events (omega arith) inc.1 (ground arith))

  -- After a run the version is not past the ids that follow, and the base query is what it was.
  pub version-mutate_each :
      (m m' : M) (lo : EventId) (events zs : List (PersistedEvent E))
      → ms.version m ≤ lo
      → Increasing lo (events ++ zs)
      → mutate_each ms m events ≡ some m'
      → (mid : EventId) × (ms.version m' ≤ mid)
        × Increasing mid zs
        × (base_query ms m' ≡ base_query ms m)
  unfolding mutate_each
  version-mutate_each m m' lo [] zs le inc h =
      let same : m ≡ m' = cc h in (lo, rw (← same) le, inc, ap (base_query ms) (sym same))
  version-mutate_each m m' lo (e ∷ events) zs le inc h = elim (Option-cases (ms.mutate_all m e)) [
    | inl panics ↦ cc (ap (run_after events) panics, h)
    | inr (m₁, step) ↦
        let rest = sym (ap (run_after events) step) ∙ h in
        let r =
          version-mutate_each m₁ m' e.id events zs (version-mutate_all m m₁ e step (omega arith))
            inc.1 rest in
        (r.0, r.1, r.2, r.3 ∙ lawful.stable m m₁ e step)
  ]

module _ {St S M E X : Type 0} (ms : MultiState S M E) (ev : Event E) (lawful : IsLawful ms ev)
    (es : EventStore St E X) (k : KeepsLog es ev) where
  mutate_stream-map :
      (m : M) (events : List (PersistedEvent E))
      → mutate_stream ms es m (map ok events) ≡ unwrap (mutate_each ms m events)
  unfolding mutate_stream mutate_each
  mutate_stream-map m [] = refl
  mutate_stream-map m (e ∷ events) = elim (Option-cases (ms.mutate_all m e)) [
    | inl panics ↦ rw panics
    | inr (m', step) ↦ rw step (mutate_stream-map m' events)
  ]

  -- The events that a stream delivers for the group's query drive it as the whole log does.
  pub mutate_state-log :
      (st : St) (m : M) → mutate_state ms es st m ≡ unwrap (mutate_each ms m (k.log st))
  unfolding mutate_state
  mutate_state-log st m =
      let (events, delivered, inc, same) = k.streamed st (ms.query_all m) in
      rw delivered (
        mutate_stream-map m events
        ∙ ap unwrap (mutate_each_alike ms ev lawful m events (k.log st) same))

  -- For a lawful group of states and a store that keeps its log, to load a state is to replay the
  -- whole log of the store on the queried state: the loaded
  -- state and version are those of the replay, and a load panics exactly when the replay does.
  pub load-replay :
      (st : St) (s : S)
      → load ms es st s ≡ (
          unwrap (mutate_each ms (ms.into_state_part s) (k.log st)) >>= λ m.
          ok (record { state = ms.into_state m; version = ms.version m }))
  unfolding load
  load-replay st s =
      ap
        (λ (r : Result M X).
          r >>= λ m. ok (record { state = ms.into_state m; version = ms.version m }))
        (mutate_state-log st (ms.into_state_part s))
