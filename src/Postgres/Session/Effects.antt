-- ===== src/Postgres/Session/Effects.antt =====
-- About the actions of a client of the PostgreSQL store: each of them.
use disintegrate.Prelude.{
  ◌<◌, ◌≡◌, refl, true, inl, inr, some, List, [], ◌∷◌, ◌++◌, All, All-append, All-weaken, All-zip,
  arith, Bool-cases, Option-cases,
}
use disintegrate.Event.{EventId, Event, PersistedEvent}
use disintegrate.Postgres.Criteria.{Group}
use disintegrate.Postgres.Append.{
  Database, has_id, is_updated, consume, update_rows, stage, ids_of, last_id,
}
use disintegrate.Postgres.Append.Rows.{Has-update_rows, update_rows-AllSound, update_rows-ids}
use disintegrate.Postgres.Append.Validity.{IsValid}
use disintegrate.Postgres.Session.{
  Client, ready, staging, updated, inserted, batching, Action, begin, stages, updates, inserts,
  commits, begin_batch, stages_batch, commits_batch, quits, is_checked, effect,
}
use disintegrate.Postgres.Session.Keeps.{Spent, Keeps, Keeps-refl, update-Keeps}
use disintegrate.Postgres.Session.Served.{
  IsRecorded, IsCommitted, IsServed, Keeps-IsCommitted, Keeps-IsServed,
}
use disintegrate.Postgres.Session.Kept.{IsKept, unchanged, max_id-fresh, own_ids, stage_kept}
use disintegrate.Postgres.Session.Batches.{commits_batch-IsKept}

module _ {E : Type 0} (ev : Event E) where
  stages-IsKept :
      (db : Database E) (epoch : EventId) (es : List (PersistedEvent E)) (event : E)
      → IsValid db
      → All (IsCommitted ev db) db.event
      → IsServed ev db (staging epoch es)
      → IsKept ev db (stage ev 0 db event).0 (staging epoch (es ++ (stage ev 0 db event).1 ∷ []))
  unfolding stage
  stages-IsKept db epoch es event v l s =
      let (k, valid, logged, new) = stage_kept ev 0 db event (omega arith) v l in
      let kept = Keeps-IsServed ev db (stage ev 0 db event).0 k (staging epoch es) s in
      record {
        keeps = k;
        valid = valid;
        logged = logged;
        served = (kept.0, All-append _ es _ kept.1 ((s.0, new), tt));
      }

  stages_batch-IsKept :
      (db : Database E) (epoch : EventId) (es : List (PersistedEvent E)) (event : E)
      → IsValid db
      → All (IsCommitted ev db) db.event
      → IsServed ev db (batching epoch es)
      → IsKept ev db (stage ev 1 db event).0 (batching epoch (es ++ (stage ev 1 db event).1 ∷ []))
  unfolding stage
  stages_batch-IsKept db epoch es event v l s =
      let (k, valid, logged, new) = stage_kept ev 1 db event (omega arith) v l in
      let kept = Keeps-IsServed ev db (stage ev 1 db event).0 k (batching epoch es) s in
      let spent : Spent (stage ev 1 db event).0.event_sequence db.next_id =
        All-append _ db.event_sequence _
          (All-weaken _ _ db.event_sequence (λ r lt. ground arith) v.fresh) (ground arith, tt) in
      record {
        keeps = k;
        valid = valid;
        logged = logged;
        served = (kept.0, All-append _ es _ kept.1 ((s.0, omega arith, new, spent), tt));
      }

  update_own :
      (db db' : Database E) (es : List (PersistedEvent E)) (gs : List Group) (e : PersistedEvent E)
      → update_rows (ids_of es) (last_id 0 es) gs db.event_sequence ≡ some db'.event_sequence
      → has_id (ids_of es) e.id ≡ true
      → 0 < e.id
      → IsRecorded ev db e
      → IsCommitted ev db' e
  update_own db db' es gs e passes own stored (r, here, is_row) =
      let mine : has_id (ids_of es) r.row.event_id ≡ true = rw is_row own in
      let after =
        Has-update_rows (ids_of es) (last_id 0 es) gs r db.event_sequence db'.event_sequence passes
          here in
      let reached : is_updated (ids_of es) (last_id 0 es) gs r ≡ true = ground arith in
      (consume (ids_of es) (last_id 0 es) gs r, rw reached at after, is_row, mine, stored)

  updates-IsKept :
      (db db' : Database E) (epoch : EventId) (es : List (PersistedEvent E)) (gs : List Group)
      → db'.next_id ≡ db.next_id
      → db'.event ≡ db.event
      → update_rows (ids_of es) (last_id 0 es) gs db.event_sequence ≡ some db'.event_sequence
      → IsValid db
      → All (IsCommitted ev db) db.event
      → IsServed ev db (staging epoch es)
      → (Keeps db db') × IsKept ev db db' (updated epoch es)
  updates-IsKept db db' epoch es gs n t passes v l s =
      let k = update-Keeps (ids_of es) (last_id 0 es) gs db db' v.sound n passes in
      (
        k,
        record {
          keeps = k;
          valid = record {
            sound =
                update_rows-AllSound (ids_of es) (last_id 0 es) gs db.event_sequence
                  db'.event_sequence v.sound passes;
            fresh = rw n (
                update_rows-ids (ids_of es) (last_id 0 es) gs db.next_id db.event_sequence
                  db'.event_sequence v.fresh passes);
          };
          logged = rw t (All-weaken _ _ db.event (Keeps-IsCommitted ev db db' k) l);
          served = (
            rw n s.0,
            All-weaken _ _ es
                (λ e h. (h.1.0, update_own db db' es gs e passes h.0 (omega (arith, h.1.0)) h.1.1))
                (All-zip _ _ es (own_ids ev es) s.1),
          );
        },
      )

  inserts-IsKept :
      (db db' : Database E) (epoch : EventId) (es : List (PersistedEvent E))
      → db'.next_id ≡ db.next_id
      → db'.event ≡ db.event ++ es
      → db'.event_sequence ≡ db.event_sequence
      → IsValid db
      → All (IsCommitted ev db) db.event
      → IsServed ev db (updated epoch es)
      → IsKept ev db db' (inserted epoch)
  inserts-IsKept db db' epoch es n t shape v l s =
      let k = Keeps-refl db db' n shape in
      record {
        keeps = k;
        valid = record { sound = rw shape v.sound; fresh = rw (shape, n) v.fresh };
        logged = rw t (
            All-append _ db.event es (All-weaken _ _ db.event (Keeps-IsCommitted ev db db' k) l)
              (All-weaken _ _ es (λ e h. Keeps-IsCommitted ev db db' k e h.1) s.1));
        served = rw n s.0;
      }

  -- Every action of a client keeps the tables and serves the client.
  pub effect-IsKept :
      (a : Action E) (db : Database E) (c : Client E)
      → 0 < db.next_id
      → IsValid db
      → All (IsCommitted ev db) db.event
      → IsServed ev db c
      → IsKept ev db (effect ev a db c).0 (effect ev a db c).1
  unfolding effect
  effect-IsKept begin db ready pos v l s =
      unchanged ev db _ v l (max_id-fresh ev db db.event pos v l, tt)
  effect-IsKept begin_batch db ready pos v l s =
      unchanged ev db _ v l (max_id-fresh ev db db.event pos v l, tt)
  effect-IsKept (stages event) db (staging epoch es) pos v l s =
      stages-IsKept db epoch es event v l s
  effect-IsKept (stages_batch event) db (batching epoch es) pos v l s =
      stages_batch-IsKept db epoch es event v l s
  effect-IsKept (updates gs) db (staging epoch es) pos v l s =
      elim (Bool-cases (is_checked ev gs es)) [
        | inr n ↦ rw n (unchanged ev db ready v l tt)
        | inl y ↦
            elim (Option-cases (update_rows (ids_of es) (last_id 0 es) gs db.event_sequence)) [
              | inl fails ↦ rw (y, fails) (unchanged ev db ready v l tt)
              | inr (rows, passes) ↦
                  rw (y, passes)
                    (updates-IsKept db (record db { event_sequence = rows }) epoch es gs refl refl
                      passes v l s).1
            ]
      ]
  effect-IsKept inserts db (updated epoch es) pos v l s =
      inserts-IsKept db (record db { event = db.event ++ es }) epoch es refl refl refl v l s
  effect-IsKept commits db (inserted epoch) pos v l s = unchanged ev db ready v l tt
  effect-IsKept commits_batch db (batching epoch es) pos v l s =
      commits_batch-IsKept ev db _ epoch es refl refl refl v l s
  effect-IsKept quits db (staging epoch es) pos v l s = unchanged ev db ready v l tt
  effect-IsKept quits db (batching epoch es) pos v l s = unchanged ev db ready v l tt
  effect-IsKept _ db c pos v l s = unchanged ev db c v l s
