-- ===== src/Postgres/Session/Sequential.antt =====
-- About `append` of disintegrate-postgres/src/event_store.rs as one operation and as a run of its
-- statements.
use disintegrate.Prelude.{
  ℕ, suc, ◌≡◌, refl, ap, sym, ◌∙◌, some, List, [], ◌∷◌, ◌++◌, map, append_assoc, append-nil,
  Bool-cases, Option-cases, inl, inr,
}
use disintegrate.Event.{EventId, EventSchema, Event, PersistedEvent}
use disintegrate.Stream.Query
use disintegrate.Stream.Query.{StreamQuery}
use disintegrate.Postgres.Criteria.{Group, groups}
use disintegrate.Postgres.Append.{
  Database, stage, stage_all, update_rows, finish, append, parses, ids_of, last_id,
}
use disintegrate.Postgres.Session.{
  Client, ready, staging, Action, begin, stages, updates, inserts, commits, max_id, effect, step_at,
  step, run,
}
use disintegrate.Postgres.Session.Drain.{run-append, run_later}

module _ {E : Type 0} (ev : Event E) where
  run-begin :
      (db : Database E) (cs : List (Client E)) (actions : List (ℕ × Action E))
      → run ev (record { db = db; clients = ready ∷ cs }) ((0, begin) ∷ actions)
        ≡ run ev (record { db = db; clients = staging (max_id db.event) [] ∷ cs }) actions
  unfolding run step step_at effect
  run-begin db cs actions = refl

  -- The client stages the events one by one.
  run-stages :
      (db : Database E) (epoch : EventId) (es : List (PersistedEvent E)) (cs : List (Client E))
      (events : List E)
      → run ev
          (record { db = db; clients = staging epoch es ∷ cs })
          (map (λ e. (0, stages e)) events)
        ≡ record {
          db = (stage_all ev 0 db events).0;
          clients = staging epoch (es ++ (stage_all ev 0 db events).1) ∷ cs;
        }
  unfolding run step step_at effect stage_all
  run-stages db epoch es cs [] = rw append-nil refl
  run-stages db epoch es cs (event ∷ events) =
      let (db', e) = stage ev 0 db event in
      run-stages db' epoch (es ++ e ∷ []) cs events
      ∙ rw (append_assoc es (e ∷ []) (stage_all ev 0 db' events).1) refl

  -- From the `UPDATE` on.
  run-finish :
      (db : Database E) (epoch : EventId) (e : PersistedEvent E) (es : List (PersistedEvent E))
      (cs : List (Client E)) (gs : List Group)
      → run ev
          (record { db = db; clients = staging epoch (e ∷ es) ∷ cs })
          ((0, updates gs) ∷ (0, inserts) ∷ (0, commits) ∷ [])
        ≡ record { db = (finish db (e ∷ es) gs).0; clients = ready ∷ cs }
  unfolding run step step_at effect finish
  run-finish db epoch e es cs gs = elim (Bool-cases (parses gs)) [
    | inr n ↦ rw n refl
    | inl y ↦
        elim (Option-cases
          (update_rows (ids_of (e ∷ es)) (last_id 0 (e ∷ es)) gs db.event_sequence)) [
            | inl fails ↦ rw (y, fails) refl
            | inr (rows, passes) ↦ rw (y, passes) refl
          ]
  ]

  -- The tables after an `append` of events are those after its client has run its statements one by
  -- one, if what happens before the `UPDATE` is a run of other clients.
  append-run :
      (schema : EventSchema) (db : Database E) (cs : List (Client E)) (others : List (ℕ × Action E))
      (event : E) (events : List E) (query : StreamQuery) (version : EventId) (gs : List Group)
      → groups schema (Query.change_origin version query).filters ≡ some gs
      → (append ev schema
          (λ d. (run ev (record { db = d; clients = cs }) others).db)
          db
          (event ∷ events)
          query
          version).0
        ≡ (run ev
            (record { db = db; clients = ready ∷ cs })
            ((0, begin) ∷ map (λ e. (0, stages e)) (event ∷ events)
              ++ (map (λ a. (suc a.0, a.1)) others
                  ++ (0, updates gs) ∷ (0, inserts) ∷ (0, commits) ∷ []))).db
  unfolding append stage_all
  append-run schema db cs others event events query version gs built =
      let epoch = max_id db.event in
      let staged = stage_all ev 0 db (event ∷ events) in
      let after = run ev (record { db = staged.0; clients = cs }) others in
      let last : List (ℕ × Action E) = (0, updates gs) ∷ (0, inserts) ∷ (0, commits) ∷ [] in
      let later = map (λ (a : ℕ × Action E). (suc a.0, a.1)) others in
      let stagings = map (λ e. (0, stages e)) (event ∷ events) in
      let all_staged =
        run-append ev (record { db = db; clients = staging epoch [] ∷ cs }) stagings (later ++ last)
        ∙ ap (λ w. run ev w (later ++ last)) (run-stages db epoch [] cs (event ∷ events)) in
      let others_ran =
        run-append ev (record { db = staged.0; clients = staging epoch staged.1 ∷ cs }) later last
        ∙ ap (λ w. run ev w last) (run_later ev staged.0 (staging epoch staged.1) cs others) in
      let es = (stage_all ev 0 (stage ev 0 db event).0 events).1 in
      let finished = run-finish after.db epoch (stage ev 0 db event).1 es after.clients gs in
      rw built (
        sym (
          ap (λ w. w.db)
            (run-begin db cs (stagings ++ (later ++ last)) ∙ all_staged ∙ others_ran ∙ finished)))
