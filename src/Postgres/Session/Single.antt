-- ===== src/Postgres/Session/Single.antt =====
-- About the ids of the events of the PostgreSQL store: the primary key of the table `event`.
use disintegrate.Prelude.{
  ℕ, zero, suc, ◌+◌, ◌≤◌, ◌≡◌, refl, List, [], ◌∷◌, ◌++◌, eqb, arith, Bool-cases, Option-cases, inl,
  inr, ◌⊎◌, if◌then◌else◌,
}
use disintegrate.Event.{EventId, Event, PersistedEvent}
use disintegrate.Postgres.Append.{Database, stage, update_rows, ids_of, last_id}
use disintegrate.Postgres.Session.{
  Client, ready, staging, updated, inserted, batching, World, Action, begin, stages, updates,
  inserts, commits, begin_batch, stages_batch, commits_batch, quits, is_checked, effect, step_at,
  step, run,
}
use disintegrate.Postgres.Session.Epoch.{staged_by}

module _ {E : Type 0} where
  -- The number of events with the id.
  abbrev pub count_id : EventId → List (PersistedEvent E) → ℕ
  count_id n [] = 0
  count_id n (e ∷ es) = (if eqb e.id n then 1 else 0) + count_id n es

  abbrev pub count_staged : EventId → List (Client E) → ℕ
  count_staged n [] = 0
  count_staged n (c ∷ cs) = count_id n (staged_by c) + count_staged n cs

  pub count_id-append :
      (n : EventId) (es es' : List (PersistedEvent E))
      → count_id n (es ++ es') ≡ count_id n es + count_id n es'
  count_id-append n [] es' = omega arith
  count_id-append n (e ∷ es) es' = ground (arith, count_id-append n es es')

-- Every id is taken at most once, by an event of the table or by one that a client has staged, and
-- no id that is still to come.
pub record IsSingle {E : Type 0} (db : Database E) (clients : List (Client E)) : Type 0 where
  pub once : (n : EventId) → count_id n db.event + count_staged n clients ≤ 1
  pub fresh : (n : EventId) → db.next_id ≤ n → count_id n db.event + count_staged n clients ≡ 0

module _ {E : Type 0} (ev : Event E) where
  -- A step takes at most the next id, and then moves on to the one after it.
  abbrev Takes : EventId → EventId → EventId → ℕ → ℕ → Type 0
  Takes n next next' before after =
      ((next ≤ next') × (after ≤ before)) ⊎ ((n ≡ next) × (next' ≡ next + 1) × (after ≤ before + 1))

  abbrev total : EventId → Database E → Client E → ℕ
  total n db c = count_id n db.event + count_id n (staged_by c)

  staged_total :
      (n : EventId) (es : List (PersistedEvent E)) (e : PersistedEvent E)
      → (count_id n (es ++ e ∷ []) ≤ count_id n es)
        ⊎ ((n ≡ e.id) × (count_id n (es ++ e ∷ []) ≤ count_id n es + 1))
  staged_total n es e = elim (Bool-cases (eqb e.id n)) [
    | inl y ↦ inr (ground arith, ground (arith, count_id-append n es (e ∷ [])))
    | inr m ↦ inl (ground (arith, count_id-append n es (e ∷ [])))
  ]

  effect-Takes :
      (n : EventId) (a : Action E) (db : Database E) (c : Client E)
      → Takes n db.next_id
          (effect ev a db c).0.next_id
          (total n db c)
          (total n (effect ev a db c).0 (effect ev a db c).1)
  unfolding effect stage
  effect-Takes n begin db ready = inl (omega arith, omega arith)
  effect-Takes n begin_batch db ready = inl (omega arith, omega arith)
  effect-Takes n (stages event) db (staging epoch es) =
      elim (staged_total n es (record { id = db.next_id; event = event })) [
        | inl le ↦ inl (omega arith, omega (arith, le))
        | inr (is, le) ↦ inr (is, refl, omega (arith, le))
      ]
  effect-Takes n (stages_batch event) db (batching epoch es) =
      elim (staged_total n es (record { id = db.next_id; event = event })) [
        | inl le ↦ inl (omega arith, omega (arith, le))
        | inr (is, le) ↦ inr (is, refl, omega (arith, le))
      ]
  effect-Takes n (updates gs) db (staging epoch es) = elim (Bool-cases (is_checked ev gs es)) [
    | inr no_text ↦ rw no_text (inl (omega arith, omega arith))
    | inl y ↦ elim (Option-cases (update_rows (ids_of es) (last_id 0 es) gs db.event_sequence)) [
      | inl fails ↦ rw (y, fails) (inl (omega arith, omega arith))
      | inr (rows, passes) ↦ rw (y, passes) (inl (omega arith, omega arith))
    ]
  ]
  effect-Takes n inserts db (updated epoch es) =
      inl (omega arith, omega (arith, count_id-append n db.event es))
  effect-Takes n commits db (inserted epoch) = inl (omega arith, omega arith)
  effect-Takes n commits_batch db (batching epoch es) =
      inl (omega arith, omega (arith, count_id-append n db.event es))
  effect-Takes n quits db (staging epoch es) = inl (omega arith, omega arith)
  effect-Takes n quits db (batching epoch es) = inl (omega arith, omega arith)
  effect-Takes n _ db c = inl (omega arith, omega arith)

  step_at-Takes :
      (n : EventId) (i : ℕ) (a : Action E) (db : Database E) (cs : List (Client E))
      → Takes n db.next_id
          (step_at ev i a db cs).0.next_id
          (count_id n db.event + count_staged n cs)
          (count_id n (step_at ev i a db cs).0.event + count_staged n (step_at ev i a db cs).1)
  unfolding step_at
  step_at-Takes n i a db [] = inl (omega arith, omega arith)
  step_at-Takes n zero a db (c ∷ cs) = elim (effect-Takes n a db c) [
    | inl (grows, le) ↦ inl (grows, omega (arith, le))
    | inr (is, next, le) ↦ inr (is, next, omega (arith, le))
  ]
  step_at-Takes n (suc i) a db (c ∷ cs) = elim (step_at-Takes n i a db cs) [
    | inl (grows, le) ↦ inl (grows, omega (arith, le))
    | inr (is, next, le) ↦ inr (is, next, omega (arith, le))
  ]

  step-IsSingle :
      (w : World E) (a : ℕ × Action E)
      → IsSingle w.db w.clients
      → IsSingle (step ev w a).db (step ev w a).clients
  unfolding step
  step-IsSingle w (i, a) s = record {
    once = λ n. elim (step_at-Takes n i a w.db w.clients) [
      | inl (grows, le) ↦ omega (arith, le, s.once n)
      | inr (is, next, le) ↦ omega (arith, le, s.fresh n (omega (arith, is)))
    ];
    fresh = λ n later. elim (step_at-Takes n i a w.db w.clients) [
      | inl (grows, le) ↦ omega (arith, le, s.fresh n (omega (arith, grows, later)))
      | inr (is, next, le) ↦ absurd (omega (arith, is, next, later))
    ];
  }

  -- Whatever the clients do, in any order, an id is taken at most once, by an event of the table or
  -- by one that a client has staged, if this holds at the start: an insert into the table `event`
  -- never violates its primary key.
  pub run-IsSingle :
      (w : World E) (actions : List (ℕ × Action E))
      → IsSingle w.db w.clients
      → IsSingle (run ev w actions).db (run ev w actions).clients
  unfolding run
  run-IsSingle w [] s = s
  run-IsSingle w (a ∷ actions) s = run-IsSingle (step ev w a) actions (step-IsSingle w a s)
