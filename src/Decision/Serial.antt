-- ===== src/Decision/Serial.antt =====
-- About `DecisionMaker::make` of disintegrate/src/decision.rs, with other clients at work meanwhile.
use disintegrate.Prelude.{
  ◌≡◌, refl, ◌∙◌, sym, false, none, some, List, ◌++◌, map, any, arith, Option-cases, inl, inr,
  any-append,
}
use disintegrate.Prelude.Result.{Result, ok, err, panicked, unwrap, ◌>>=◌}
use disintegrate.Event.{Event, PersistedEvent}
use disintegrate.Stream.Query
use disintegrate.Stream.Query.{StreamQuery}
use disintegrate.State.{MultiState, mutate_each}
use disintegrate.State.Multi.{IsLawful, base_query}
use disintegrate.EventStore.{EventStore, KeepsLog, Increasing}
use disintegrate.StateStore.{LoadedState, load, persist, validation}
use disintegrate.StateStore.Replay.{
  load-replay, mutate_each-append, mutate_each_quiet, version-mutate_each,
}
use disintegrate.Decision.{Decision, in_state_store, after_process, after_load, make}

module _ {St S M E X Y : Type 0} (ms : MultiState S M E) (ev : Event E) (lawful : IsLawful ms ev)
    (es : EventStore St E Y) (k : KeepsLog es ev) (d : Decision S E X) where
  -- What a decision made at once on the log would have found and written.
  pub record MadeOn (log : List (PersistedEvent E)) (st' : St) (persisted : List (PersistedEvent E))
      : Type 0 where
    pub state : M
    pub replayed : mutate_each ms (ms.into_state_part d.state_query) log ≡ some state
    pub events : List E
    pub processed : d.process (ms.into_state state) ≡ ok events
    pub written : map (λ p. p.event) persisted ≡ events
    pub logged : k.log st' ≡ log ++ persisted

  -- The events that came in between do not move a state that the append validated.
  quiet_between :
      (m : M) (log zs : List (PersistedEvent E)) (s : S)
      → mutate_each ms (ms.into_state_part s) log ≡ some m
      → Increasing 0 (log ++ zs)
      → any (Query.matches ev (Query.change_origin (ms.version m) (base_query ms m))) (log ++ zs)
        ≡ false
      → mutate_each ms (ms.into_state_part s) (log ++ zs) ≡ some m
  quiet_between m log zs s run inc none_match =
      let p = Query.matches ev (Query.change_origin (ms.version m) (base_query ms m)) in
      let (mid, le, inc', same) =
        version-mutate_each ms ev lawful (ms.into_state_part s) m 0 log zs
          (omega (arith, lawful.starts s)) inc run in
      let late : any p zs ≡ false = ground (arith, any-append p log zs) in
      mutate_each-append ms ev lawful (ms.into_state_part s) m log zs run
      ∙ mutate_each_quiet ms ev lawful m mid zs le inc' late

  after_load_inv :
      (between : St → St) (st st' : St) (persisted : List (PersistedEvent E))
      (r : Result (LoadedState S) Y)
      → after_load ms es d between st r ≡ (st', ok persisted)
      → (loaded : LoadedState S) × (r ≡ ok loaded)
        × (after_process ms es d between st loaded (d.process loaded.state) ≡ (st', ok persisted))
  after_load_inv between st st' persisted (ok loaded) h = (loaded, refl, h)
  after_load_inv between st st' persisted (err y) h = absurd (ground arith)
  after_load_inv between st st' persisted panicked h = absurd (ground arith)

  after_process_inv :
      (between : St → St) (st st' : St) (persisted : List (PersistedEvent E))
      (loaded : LoadedState S) (r : Result (List E) X)
      → after_process ms es d between st loaded r ≡ (st', ok persisted)
      → (changes : List E) × (r ≡ ok changes)
        × (in_state_store ms es d between
              (persist ms es (between st) loaded changes d.validation_query)
            ≡ (st', ok persisted))
  after_process_inv between st st' persisted loaded (ok changes) h = (changes, refl, h)
  after_process_inv between st st' persisted loaded (err x) h = absurd (ground arith)
  after_process_inv between st st' persisted loaded panicked h = absurd (ground arith)

  in_state_store_inv :
      (between : St → St) (st' : St) (persisted : List (PersistedEvent E))
      (r : St × Result (List (PersistedEvent E)) Y)
      → in_state_store ms es d between r ≡ (st', ok persisted)
      → r ≡ (st', ok persisted)
  in_state_store_inv between st' persisted (st₁, ok a) h = ground arith
  in_state_store_inv between st' persisted (st₁, err y) h = absurd (ground arith)
  in_state_store_inv between st' persisted (st₁, panicked) h = absurd (ground arith)

  abbrev loaded_of : M → LoadedState S
  loaded_of m = record { state = ms.into_state m; version = ms.version m }

  loaded_inv :
      (loaded : LoadedState S) (log : List (PersistedEvent E))
      → (unwrap {X = Y} (mutate_each ms (ms.into_state_part d.state_query) log) >>= λ m.
          ok (loaded_of m))
        ≡ ok loaded
      → (m : M) × (mutate_each ms (ms.into_state_part d.state_query) log ≡ some m)
        × (loaded ≡ loaded_of m)
  loaded_inv loaded log h =
      elim (Option-cases (mutate_each ms (ms.into_state_part d.state_query) log)) [
        | inl panics ↦ absurd (ground arith)
        | inr (m, run) ↦ (m, run, ground arith)
      ]

  -- What a decision has found when it was made: the state of the log at its load, and no event that
  -- its validation query selects from there on in the log at its append.
  pub record ValidatedOn (loaded log : List (PersistedEvent E)) (st' : St)
      (persisted : List (PersistedEvent E)) : Type 0 where
    pub state : M
    pub replayed : mutate_each ms (ms.into_state_part d.state_query) loaded ≡ some state
    pub events : List E
    pub processed : d.process (ms.into_state state) ≡ ok events
    pub none_match :
        any
          (Query.matches ev (
            Query.change_origin
              (ms.version state)
              (validation ms es d.validation_query (ms.into_state state))))
          log
        ≡ false
    pub written : map (λ p. p.event) persisted ≡ events
    pub logged : k.log st' ≡ log ++ persisted

  validated_from :
      (between : St → St) (st st' : St) (persisted : List (PersistedEvent E)) (m : M)
      → mutate_each ms (ms.into_state_part d.state_query) (k.log st) ≡ some m
      → (changes : List E) (loaded : LoadedState S) → loaded ≡ loaded_of m
      → d.process loaded.state ≡ ok changes
      → in_state_store ms es d between
          (persist ms es (between st) loaded changes d.validation_query)
        ≡ (st', ok persisted)
      → ValidatedOn (k.log st) (k.log (between st)) st' persisted
  validated_from between st st' persisted m run changes loaded same processed kept =
      let (none_match, logged, written) =
        k.appended (between st) st' changes (validation ms es d.validation_query (ms.into_state m))
          (ms.version m) persisted
          (unfold persist in in_state_store_inv between st' persisted _ (rw same at kept)) in
      record {
        state = m;
        replayed = run;
        events = changes;
        processed = rw same at processed;
        none_match = none_match;
        written = written;
        logged = logged;
      }

  -- If a decision succeeds, on a store that keeps its log, then it was processed on the state that the
  -- log replayed to when it was loaded, its validation query selects no event past the version of that
  -- state in the log at the time of the append, and the log grows by exactly the events it produced.
  pub make_validated :
      (between : St → St) (st st' : St) (persisted : List (PersistedEvent E))
      → make ms es d between st ≡ (st', ok persisted)
      → ValidatedOn (k.log st) (k.log (between st)) st' persisted
  make_validated between st st' persisted made =
      let (loaded, is_loaded, rest) =
        after_load_inv between st st' persisted (load ms es st d.state_query)
          (unfold make in made) in
      let (changes, is_processed, kept) =
        after_process_inv between st st' persisted loaded (d.process loaded.state) rest in
      let (m, run, same) =
        loaded_inv loaded (k.log st)
          (sym (load-replay ms ev lawful es k st d.state_query) ∙ is_loaded) in
      validated_from between st st' persisted m run changes loaded same is_processed kept

  -- If a decision without a validation query of its own succeeds, on a store that keeps its log and
  -- while other clients only add to the log, then the whole log at the time
  -- of the append, the events of other clients since the load included, replays to the very state
  -- that the decision was processed on, and the log grows by exactly the events it produced.
  pub make_serial :
      (between : St → St) (st st' : St) (zs persisted : List (PersistedEvent E))
      → d.validation_query ≡ none
      → k.log (between st) ≡ k.log st ++ zs
      → make ms es d between st ≡ (st', ok persisted)
      → MadeOn (k.log (between st)) st' persisted
  make_serial between st st' zs persisted no_query grown made =
      let v = make_validated between st st' persisted made in
      record {
        state = v.state;
        replayed = rw grown (
            quiet_between v.state (k.log st) zs d.state_query v.replayed
              (rw grown at (k.increasing (between st))) (rw (no_query, grown) at v.none_match));
        events = v.events;
        processed = v.processed;
        written = v.written;
        logged = v.logged;
      }
