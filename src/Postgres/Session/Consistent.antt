-- ===== src/Postgres/Session/Consistent.antt =====
-- The tables and the clients of the PostgreSQL store at any time.
use disintegrate.Prelude.{ℕ, zero, suc, ◌<◌, refl, List, [], ◌∷◌, All, All-weaken, arith}
use disintegrate.Event.{Event}
use disintegrate.Postgres.Append.{Database}
use disintegrate.Postgres.Append.Validity.{IsValid}
use disintegrate.Postgres.Session.{Client, World, Action, effect, step_at, step, run}
use disintegrate.Postgres.Session.Keeps.{Keeps, Keeps-refl}
use disintegrate.Postgres.Session.Served.{IsCommitted, IsServed, Keeps-IsServed}
use disintegrate.Postgres.Session.Effects.{effect-IsKept}

module _ {E : Type 0} (ev : Event E) where
  -- The tables are valid, every event that is inserted is committed, and the clients are served.
  pub record IsConsistent (db : Database E) (clients : List (Client E)) : Type 0 where
    pub started : 0 < db.next_id
    pub valid : IsValid db
    pub logged : All (IsCommitted ev db) db.event
    pub served : All (IsServed ev db) clients

  -- What a step guarantees to all the clients.
  record AllKept (db db' : Database E) (cs : List (Client E)) : Type 0 where
    keeps : Keeps db db'
    valid : IsValid db'
    logged : All (IsCommitted ev db') db'.event
    served : All (IsServed ev db') cs

  step_at-AllKept :
      (i : ℕ) (a : Action E) (db : Database E) (cs : List (Client E))
      → 0 < db.next_id
      → IsValid db
      → All (IsCommitted ev db) db.event
      → All (IsServed ev db) cs
      → AllKept db (step_at ev i a db cs).0 (step_at ev i a db cs).1
  unfolding step_at
  step_at-AllKept i a db [] pos v l s = record {
    keeps = Keeps-refl db db refl refl;
    valid = v;
    logged = l;
    served = tt;
  }
  step_at-AllKept zero a db (c ∷ cs) pos v l s =
      let h = effect-IsKept ev a db c pos v l s.0 in
      record {
        keeps = h.keeps;
        valid = h.valid;
        logged = h.logged;
        served =
            (h.served, All-weaken _ _ cs (Keeps-IsServed ev db (effect ev a db c).0 h.keeps) s.1);
      }
  step_at-AllKept (suc i) a db (c ∷ cs) pos v l s =
      let h = step_at-AllKept i a db cs pos v l s.1 in
      record {
        keeps = h.keeps;
        valid = h.valid;
        logged = h.logged;
        served = (Keeps-IsServed ev db (step_at ev i a db cs).0 h.keeps c s.0, h.served);
      }

  pub step-Keeps :
      (w : World E) (a : ℕ × Action E)
      → IsConsistent w.db w.clients
      → Keeps w.db (step ev w a).db × IsConsistent (step ev w a).db (step ev w a).clients
  unfolding step
  step-Keeps w (i, a) c =
      let h = step_at-AllKept i a w.db w.clients c.started c.valid c.logged c.served in
      (
        h.keeps,
        record {
          started = omega (arith, h.keeps.grows, c.started);
          valid = h.valid;
          logged = h.logged;
          served = h.served;
        },
      )

  -- In runs in which the row of an id is visible as soon as the id is drawn, and no commit of an append
  -- fails after its events are inserted: whatever the clients do, in any order, the tables stay valid, every event that was inserted stands
  -- in a committed row, and what a client has staged is recorded and later than the epoch that it
  -- holds, if all this holds at the start.
  pub run-IsConsistent :
      (w : World E) (actions : List (ℕ × Action E))
      → IsConsistent w.db w.clients
      → IsConsistent (run ev w actions).db (run ev w actions).clients
  unfolding run
  run-IsConsistent w [] c = c
  run-IsConsistent w (a ∷ actions) c = run-IsConsistent (step ev w a) actions (step-Keeps w a c).1
