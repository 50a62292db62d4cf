-- ===== src/Postgres/Session/Drain.antt =====
-- About the end of the epochs: the clients of disintegrate-postgres/src/event_store.rs can finish.
use disintegrate.Prelude.{ℕ, suc, ◌≤◌, ◌≡◌, refl, true, none, List, [], ◌∷◌, ◌++◌, map, leb, arith}
use disintegrate.Event.{EventId, Event, PersistedEvent}
use disintegrate.Postgres.Append.{Database}
use disintegrate.Postgres.Session.{
  Client, ready, staging, updated, inserted, batching, World, Action, inserts, commits,
  commits_batch, quits, max_id, effect, step_at, step, run, pending, current_epoch,
}
use disintegrate.Postgres.Session.Epoch.{up_to}

-- What a client has left to do: what passed its check or needs none is committed, the rest is given up.
abbrev pub finish : {E : Type 0} → Client E → List (Action E)
finish ready = []
finish (staging epoch es) = quits ∷ []
finish (updated epoch es) = inserts ∷ commits ∷ []
finish (inserted epoch) = commits ∷ []
finish (batching epoch es) = commits_batch ∷ []

-- All the clients in turn.
abbrev pub finish_all : {E : Type 0} → List (Client E) → List (ℕ × Action E)
finish_all [] = []
finish_all (c ∷ cs) = map (λ a. (0, a)) (finish c) ++ map (λ a. (suc a.0, a.1)) (finish_all cs)

module _ {E : Type 0} where
  max_id_bounds : (n : EventId) (es : List (PersistedEvent E)) → max_id es ≤ n → up_to n es ≡ es
  max_id_bounds n [] le = refl
  max_id_bounds n (e ∷ es) le =
      let later = max_id_bounds n es (omega (arith, le)) in
      let here : leb e.id n ≡ true = ground arith in rw (here, later) refl

  idle_epoch :
      (w : World E) → pending w.clients ≡ none → up_to (current_epoch w) w.db.event ≡ w.db.event
  unfolding current_epoch
  idle_epoch w idle = rw idle (max_id_bounds (max_id w.db.event) w.db.event (omega arith))

module _ {E : Type 0} (ev : Event E) where
  pub run-append :
      (w : World E) (first others : List (ℕ × Action E))
      → run ev w (first ++ others) ≡ run ev (run ev w first) others
  unfolding run
  run-append w [] others = refl
  run-append w (a ∷ first) others = run-append (step ev w a) first others

  -- Actions of the later clients leave the first one as it is, and do as without it.
  pub run_later :
      (db : Database E) (c : Client E) (cs : List (Client E)) (actions : List (ℕ × Action E))
      → run ev (record { db = db; clients = c ∷ cs }) (map (λ a. (suc a.0, a.1)) actions) ≡ record {
        db = (run ev (record { db = db; clients = cs }) actions).db;
        clients = c ∷ (run ev (record { db = db; clients = cs }) actions).clients;
      }
  unfolding run step step_at
  run_later db c cs [] = refl
  run_later db c cs ((i, a) ∷ actions) =
      run_later (step_at ev i a db cs).0 c (step_at ev i a db cs).1 actions

  finish-ready :
      (db : Database E) (c : Client E) (cs : List (Client E))
      → (db' : Database E) × (run ev
            (record { db = db; clients = c ∷ cs })
            (map (λ a. (0, a)) (finish c))
          ≡ record { db = db'; clients = ready ∷ cs })
  unfolding run step step_at effect
  finish-ready db ready cs = (_, refl)
  finish-ready db (staging epoch es) cs = (_, refl)
  finish-ready db (updated epoch es) cs = (_, refl)
  finish-ready db (inserted epoch) cs = (_, refl)
  finish-ready db (batching epoch es) cs = (_, refl)

  finish_all-idle :
      (db : Database E) (cs : List (Client E))
      → pending (run ev (record { db = db; clients = cs }) (finish_all cs)).clients ≡ none
  unfolding run
  finish_all-idle db [] = refl
  finish_all-idle db (c ∷ cs) =
      let (db', done) = finish-ready db c cs in
      let parts =
        run-append (record { db = db; clients = c ∷ cs }) (map (λ a. (0, a)) (finish c))
          (map (λ a. (suc a.0, a.1)) (finish_all cs)) in
      rw (parts, done, run_later db' ready cs (finish_all cs)) (finish_all-idle db' cs)

  -- No epoch keeps events from the readers for ever: from any state the clients can finish what they
  -- have begun, with no step of another client needed in between, and then the epoch of the store
  -- reaches every event of the table.
  run-finish_all :
      (w : World E)
      → up_to
          (current_epoch (run ev w (finish_all w.clients)))
          (run ev w (finish_all w.clients)).db.event
        ≡ (run ev w (finish_all w.clients)).db.event
  run-finish_all w = idle_epoch (run ev w (finish_all w.clients)) (finish_all-idle w.db w.clients)
