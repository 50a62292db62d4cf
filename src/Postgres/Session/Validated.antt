-- ===== src/Postgres/Session/Validated.antt =====
-- About the check of `append` in disintegrate-postgres/src/event_store.rs, with other clients about.
use disintegrate.Prelude.{
  ℕ, zero, suc, ◌<◌, ◌≡◌, refl, true, false, not, ◌||◌, Option, none, some, List, [], ◌∷◌, ltb, All,
  All-weaken, All-zip, is_empty, arith, Bool-cases, Option-cases, inl, inr, ◌⊎◌,
}
use disintegrate.Event.{EventId, EventInfo, EventSchema, Event, PersistedEvent, event_info}
use disintegrate.Stream.Filter.{StreamFilter}
use disintegrate.Stream.Query
use disintegrate.Stream.Query.{StreamQuery}
use disintegrate.Postgres.Criteria.{Group, groups, kept_events}
use disintegrate.Postgres.Criteria.Rows.{holds, row_of}
use disintegrate.Postgres.Criteria.Text.{IsPlain}
use disintegrate.Postgres.Criteria.Agreement.{holds_complete}
use disintegrate.Postgres.Append.{Database, has_id, is_true, update_rows, ids_of, last_id}
use disintegrate.Postgres.Append.Rows.{update_rows_each}
use disintegrate.Postgres.Append.Validity.{IsValid}
use disintegrate.Postgres.Session.{
  Client, ready, staging, updated, World, Action, updates, is_checked, effect, step_at, step, run,
}
use disintegrate.Postgres.Session.Served.{IsRecorded, IsCommitted, IsServed, All-Has}
use disintegrate.Postgres.Session.Consistent.{IsConsistent, step-Keeps, run-IsConsistent}
use disintegrate.Postgres.Session.Guard.{
  is_unchecked, is_safe, update_safe, IsGuarded, run-IsGuarded,
}

abbrev pub client_at : {E : Type 0} → List (Client E) → ℕ → Option (Client E)
client_at [] i = none
client_at (c ∷ cs) zero = some c
client_at (c ∷ cs) (suc i) = client_at cs i

module _ {E : Type 0} (ev : Event E) where
  -- The step of a client is its effect.
  step_at_lem :
      (i : ℕ) (a : Action E) (db : Database E) (cs : List (Client E)) (c : Client E)
      → client_at cs i ≡ some c
      → ((step_at ev i a db cs).0 ≡ (effect ev a db c).0)
        × (client_at (step_at ev i a db cs).1 i ≡ some (effect ev a db c).1)
  unfolding step_at
  step_at_lem i a db [] c h = absurd (cc h)
  step_at_lem zero a db (c' ∷ cs) c h = let same : c' ≡ c = cc h in rw same (refl, refl)
  step_at_lem (suc i) a db (c' ∷ cs) c h = step_at_lem i a db cs c h

  client-IsServed :
      (db : Database E) (i : ℕ) (cs : List (Client E)) (c : Client E)
      → client_at cs i ≡ some c
      → All (IsServed ev db) cs
      → IsServed ev db c
  client-IsServed db i [] c h s = absurd (cc h)
  client-IsServed db zero (c' ∷ cs) c h s = let same : c' ≡ c = cc h in rw same at s.0
  client-IsServed db (suc i) (c' ∷ cs) c h s = client-IsServed db i cs c h s.1

  last-fresh :
      (db : Database E) (last : EventId) (es : List (PersistedEvent E))
      → last < db.next_id
      → All (λ r. r.row.event_id < db.next_id) db.event_sequence
      → All (IsRecorded ev db) es
      → last_id last es < db.next_id
  last-fresh db last [] pos fresh h = pos
  last-fresh db last (e ∷ es) pos fresh h =
      let (r, here, is_row) = h.0 in
      let below = All-Has (λ r. r.row.event_id < db.next_id) r db.event_sequence fresh here in
      last-fresh db e.id es (rw is_row at below) fresh h.1

  module _ (gs : List Group) (epoch : EventId) (es : List (PersistedEvent E)) where
    updated-IsGuarded :
        (db : Database E)
        → 0 < db.next_id
        → IsValid db
        → IsServed ev db (staging epoch es)
        → (effect ev (updates gs) db (staging epoch es)).1 ≡ updated epoch es
        → IsGuarded
            (ids_of es)
            (last_id 0 es)
            gs
            ev
            (effect ev (updates gs) db (staging epoch es)).0
    unfolding effect
    updated-IsGuarded db pos v s passed = elim (Bool-cases (is_checked ev gs es)) [
      | inr n ↦ absurd (let left : ready ≡ updated epoch es = rw n at passed in cc left)
      | inl y ↦ elim (Option-cases (update_rows (ids_of es) (last_id 0 es) gs db.event_sequence)) [
        | inl fails ↦
            absurd (let left : ready ≡ updated epoch es = rw (y, fails) at passed in cc left)
        | inr (rows, passes) ↦
            rw (y, passes)
              (record {
                ahead = last-fresh db 0 es pos v.fresh (All-weaken _ _ es (λ e h. h.1) s.1);
                rows =
                    update_rows_each (ids_of es) (last_id 0 es) gs
                      (λ r. is_safe (ids_of es) (last_id 0 es) gs r ≡ true)
                      (update_safe (ids_of es) (last_id 0 es) gs) db.event_sequence rows v.sound
                      passes;
              })
      ]
    ]

    -- The event is the append's own, or later than its last one, or the criteria do not select it.
    abbrev pub IsNoConflict : PersistedEvent E → Type 0
    IsNoConflict e =
        (has_id (ids_of es) e.id ≡ true)
        ⊎ (last_id 0 es < e.id)
        ⊎ (is_true (holds (row_of ev e) gs) ≡ false)

    guarded_event :
        (db : Database E) (e : PersistedEvent E)
        → All (λ r. is_safe (ids_of es) (last_id 0 es) gs r ≡ true) db.event_sequence
        → IsCommitted ev db e
        → IsNoConflict e
    guarded_event db e rows (r, here, is_row, committed, stored) =
        let safe =
          All-Has (λ r. is_safe (ids_of es) (last_id 0 es) gs r ≡ true) r db.event_sequence rows
            here in
        let flags : (has_id (ids_of es) r.row.event_id
              || (ltb (last_id 0 es) r.row.event_id || not (is_true (holds r.row gs))))
            ≡ true =
          ground arith in
        let mine : (has_id (ids_of es) e.id
              || (ltb (last_id 0 es) e.id || not (is_true (holds (row_of ev e) gs))))
            ≡ true =
          rw is_row at flags in
        ground arith

    step-IsGuarded :
        (w : World E) (i : ℕ)
        → IsConsistent ev w.db w.clients
        → client_at w.clients i ≡ some (staging epoch es)
        → client_at (step ev w (i, updates gs)).clients i ≡ some (updated epoch es)
        → IsGuarded (ids_of es) (last_id 0 es) gs ev (step ev w (i, updates gs)).db
    unfolding step
    step-IsGuarded w i c staged passed =
        let served = client-IsServed w.db i w.clients (staging epoch es) staged c.served in
        let (db_is, client_is) =
          step_at_lem i (updates gs) w.db w.clients (staging epoch es) staged in
        let moved : (effect ev (updates gs) w.db (staging epoch es)).1 ≡ updated epoch es =
          cc (client_is, passed) in
        rw db_is (updated-IsGuarded w.db c.started c.valid served moved)

    -- If the `UPDATE` of an append passes in a consistent store, and no append without validation
    -- commits later, then no event that the criteria select ever enters the table with an id up to
    -- the last one of the append, but for the append's own events: neither one that another client
    -- had in flight at the time, nor one of a client that starts later.
    pub run-IsNoConflict :
        (w : World E) (i : ℕ) (actions : List (ℕ × Action E))
        → IsConsistent ev w.db w.clients
        → client_at w.clients i ≡ some (staging epoch es)
        → client_at (step ev w (i, updates gs)).clients i ≡ some (updated epoch es)
        → All (λ a. is_unchecked a.1 ≡ false) actions
        → All IsNoConflict (run ev (step ev w (i, updates gs)) actions).db.event
    run-IsNoConflict w i actions c staged passed checked =
        let w' = step ev w (i, updates gs) in
        let final = run-IsConsistent ev w' actions (step-Keeps ev w (i, updates gs) c).1 in
        let guarded =
          run-IsGuarded (ids_of es) (last_id 0 es) gs ev w' actions checked
            (step-IsGuarded w i c staged passed) in
        All-weaken _ _ (run ev w' actions).db.event
          (λ e h. guarded_event (run ev w' actions).db e guarded.rows h) final.logged

    module _ (schema : EventSchema) (f : StreamFilter) (fs : List StreamFilter)
        (some_event : All (λ g. is_empty (kept_events g) ≡ false) (f ∷ fs))
        (built : groups schema (f ∷ fs) ≡ some gs) where
      -- The event is the append's own, or later than its last one, or the query does not match it.
      abbrev pub IsUnmatched : PersistedEvent E → Type 0
      IsUnmatched e =
          (has_id (ids_of es) e.id ≡ true)
          ⊎ (last_id 0 es < e.id)
          ⊎ (Query.matches ev (record { filters = f ∷ fs }) e ≡ false)

      unmatched :
          (e : PersistedEvent E) (info : EventInfo)
          → event_info schema (ev.name e.event) ≡ some info
          → 0 < e.id
          → IsNoConflict e
          → IsUnmatched e
      unmatched e info known stored (inl own) = inl own
      unmatched e info known stored (inr (inl later)) = inr (inl later)
      unmatched e info known stored (inr (inr rejected)) =
          elim (Bool-cases (Query.matches ev (record { filters = f ∷ fs }) e)) [
            | inr n ↦ inr (inr n)
            | inl y ↦
                let selected =
                  holds_complete schema ev e stored f fs gs some_event built info known y in
                absurd (ground arith)
          ]

      -- In runs in which the row of an id is visible as soon as the id is drawn: if the `UPDATE` of
      -- an append passes in a consistent store with the criteria of a query none of whose filters
      -- excludes all of its events and which are plain (no quote in a literal, identifiers that
      -- name columns), the schema knows the types of all events, and no append without validation
      -- commits later, then no event that the query matches ever enters the table with an id up to
      -- the last one of the append, but for the append's own events.
      pub run-IsUnmatched :
          (w : World E) (i : ℕ) (actions : List (ℕ × Action E))
          → IsPlain gs
          → ((event : E) → (info : EventInfo) × (event_info schema (ev.name event) ≡ some info))
          → IsConsistent ev w.db w.clients
          → client_at w.clients i ≡ some (staging epoch es)
          → client_at (step ev w (i, updates gs)).clients i ≡ some (updated epoch es)
          → All (λ a. is_unchecked a.1 ≡ false) actions
          → All IsUnmatched (run ev (step ev w (i, updates gs)) actions).db.event
      run-IsUnmatched w i actions plain known c staged passed checked =
          let w' = step ev w (i, updates gs) in
          let final = run-IsConsistent ev w' actions (step-Keeps ev w (i, updates gs) c).1 in
          All-weaken _ _ (run ev w' actions).db.event
            (λ e h. let (info, is_known) = known e.event in unmatched e info is_known h.0.4 h.1)
            (All-zip _ _ (run ev w' actions).db.event final.logged
              (run-IsNoConflict w i actions c staged passed checked))
