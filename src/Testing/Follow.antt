-- ===== src/Testing/Follow.antt =====
-- About the replays of the harness of disintegrate/src/testing.rs: a group of states sees the events
-- of the history that its own queries select, one state at a time.
use disintegrate.Prelude.{
  ◌≡◌, refl, sym, ◌≤◌, ◌+◌, ℕ, Bool, true, Option, none, some, List, [], ◌∷◌, ◌++◌, any, map, ◌>>=◌,
  arith, if◌then◌else◌, Bool-cases, Option-cases, inl, inr,
}
use disintegrate.Event.{Event, PersistedEvent}
use disintegrate.Stream.Filter
use disintegrate.Stream.Query
use disintegrate.Stream.Laws.{matches-change_origin}
use disintegrate.State.{
  StateMutate, StatePart, MultiState, single, pair, new, query_part, matches_event, mutate_part,
  mutate_matching, mutate_each,
}
use disintegrate.State.Part.{matches_event-eq}
use disintegrate.Decision.{Decision}
use disintegrate.Testing.{given, enumerate, when}

abbrev pub both : {A B : Type 0} → Option A → Option B → Option (A × B)
both o o' = o >>= λ a. o' >>= λ b. some (a, b)

drop : {A B : Type 0} (o : Option A) → both {B = B} o none ≡ none
drop none = refl
drop (some a) = refl

module _ {S QE E : Type 0} (sm : StateMutate S QE E) (ev : Event E) where
  -- Whether the query of a state selects an event, wherever it stands in the log.
  abbrev pub concerns : S → E → Bool
  concerns s e =
      Query.matches ev (Query.change_origin 0 (sm.query s)) (record { id = 1; event = e })

  -- What an event does to a state.
  abbrev pub take : S → E → Option S
  take s e = if concerns s e then (sm.try_into e >>= sm.mutate s) else some s

  abbrev pub follow : S → List E → Option S
  follow s [] = some s
  follow s (e ∷ es) = take s e >>= λ s'. follow s' es

  pub follow-append :
      (s : S) (h k : List E) → follow s (h ++ k) ≡ (follow s h >>= λ s'. follow s' k)
  follow-append s [] k = refl
  follow-append s (e ∷ h) k = elim (Option-cases (take s e)) [
    | inl panics ↦ rw panics refl
    | inr (s', takes) ↦ rw takes (follow-append s' h k)
  ]

  concerns_anywhere :
      (fs : List Filter.StreamFilter) (i j : ℕ) (e : E)
      → any (Filter.matches ev (record { id = i + 1; event = e })) (map (Filter.change_origin 0) fs)
        ≡ any
            (Filter.matches ev (record { id = j + 1; event = e }))
            (map (Filter.change_origin 0) fs)
  unfolding Filter.matches Filter.change_origin
  concerns_anywhere [] i j e = refl
  concerns_anywhere (f ∷ fs) i j e = ground (arith, concerns_anywhere fs i j e)

  matches_event-concerns :
      (p : StatePart S) (n : ℕ) (e : E)
      → p.version ≤ n
      → matches_event sm ev p (record { id = n + 1; event = e }) ≡ concerns p.inner e
  matches_event-concerns p n e up =
      let at_end : PersistedEvent E = record { id = n + 1; event = e } in
      let same : Query.matches ev (Query.change_origin 0 (sm.query p.inner)) at_end
          ≡ concerns p.inner e =
        unfold Query.matches Query.change_origin in
        concerns_anywhere (sm.query p.inner).filters n 0 e in
      unfold query_part in
      ground (
        arith,
        matches_event-eq sm ev p at_end,
        matches-change_origin ev at_end (sm.query p.inner) 0 p.version,
        same,
      )

  -- The inner state of a part after an event, and a bound of the part's version.
  abbrev TakesTo : S → E → ℕ → Option (StatePart S) → Type 0
  TakesTo s e n none = take s e ≡ none
  TakesTo s e n (some p') = (take s e ≡ some p'.inner) × (p'.version ≤ n)

  mutate_part-take :
      (p : StatePart S) (n : ℕ) (e : E)
      → concerns p.inner e ≡ true
      → TakesTo p.inner e (n + 1) (mutate_part sm ev p (record { id = n + 1; event = e }))
  unfolding mutate_part
  mutate_part-take p n e y = elim (Option-cases (sm.try_into e)) [
    | inl o ↦ rw o (ground arith)
    | inr (qe, o) ↦ elim (Option-cases (sm.mutate p.inner qe)) [
      | inl o' ↦ rw (o, o') (ground arith)
      | inr (s', o') ↦ rw (o, o') (ground arith, omega arith)
    ]
  ]

  mutate_matching-take :
      (p : StatePart S) (n : ℕ) (e : E)
      → p.version ≤ n
      → TakesTo p.inner e (n + 1) (mutate_matching sm ev p (record { id = n + 1; event = e }))
  unfolding mutate_matching mutate_part
  mutate_matching-take p n e up = elim (Bool-cases (concerns p.inner e)) [
    | inr miss ↦ rw (matches_event-concerns p n e up, miss) (ground arith, omega (arith, up))
    | inl y ↦ rw (matches_event-concerns p n e up, y) (mutate_part-take p n e y)
  ]

  -- The replay of one state part.
  pub single-follow :
      (p : StatePart S) (n : ℕ) (h : List E)
      → p.version ≤ n
      → (mutate_each (single sm ev) p (enumerate n h) >>= λ p'. some p'.inner) ≡ follow p.inner h
  unfolding mutate_each single
  single-follow p n [] up = refl
  single-follow p n (e ∷ h) up =
      let one = mutate_matching-take p n e up in
      elim (Option-cases (mutate_matching sm ev p (record { id = n + 1; event = e }))) [
        | inl panics ↦ rw panics (sym (rw (rw panics at one) refl))
        | inr (p', ran) ↦
            let (takes, up') = rw ran at one in rw (ran, takes) (single-follow p' (n + 1) h up')
      ]

module _ {S M S' QE E : Type 0} (ms : MultiState S M E) (sm : StateMutate S' QE E)
    (ev : Event E) where
  -- Each part of a pair is replayed for itself.
  pair-mutate_each :
      (m : M) (p : StatePart S') (es : List (PersistedEvent E))
      → mutate_each (pair ms sm ev) (m, p) es
        ≡ both (mutate_each ms m es) (mutate_each (single sm ev) p es)
  unfolding mutate_each single pair
  pair-mutate_each m p [] = refl
  pair-mutate_each m p (e ∷ es) = elim (Option-cases (ms.mutate_all m e)) [
    | inl panics ↦ rw panics refl
    | inr (m', ran) ↦ rw ran (elim (Option-cases (mutate_matching sm ev p e)) [
      | inl panics ↦ rw panics (sym (drop (mutate_each ms m' es)))
      | inr (p', ran') ↦ rw ran' (pair-mutate_each m' p' es)
    ])
  ]

module _ {S QE E X : Type 0} (sm : StateMutate S QE E) (ev : Event E) (h : List E)
    (d : Decision S E X) where
  -- The harness decides on the state that follows the history.
  pub when-follow :
      (s : S)
      → follow sm ev d.state_query h ≡ some s
      → (when (single sm ev) (given h) d).result ≡ d.process s
  unfolding when single new
  when-follow s ran =
      let replay = single-follow sm ev (new 0 d.state_query) 0 h (omega arith) in
      ground (arith, replay)

module _ {S QS T QT E X : Type 0} (sm : StateMutate S QS E) (tm : StateMutate T QT E) (ev : Event E)
    (h : List E) (d : Decision (S × T) E X) where
  -- The harness decides on the two states that follow the history.
  pub when-follow_both :
      (s : S) (t : T)
      → follow sm ev d.state_query.0 h ≡ some s
      → follow tm ev d.state_query.1 h ≡ some t
      → (when (pair (single sm ev) tm ev) (given h) d).result ≡ d.process (s, t)
  unfolding when single pair new
  when-follow_both s t ran ran' =
      let first = single-follow sm ev (new 0 d.state_query.0) 0 h (omega arith) in
      let last = single-follow tm ev (new 0 d.state_query.1) 0 h (omega arith) in
      let split =
        pair-mutate_each (single sm ev) tm ev (new 0 d.state_query.0) (new 0 d.state_query.1)
          (enumerate 0 h) in
      ground (arith, first, last, split)
