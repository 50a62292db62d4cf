-- ===== src/Postgres/Session/Batches.antt =====
-- About `append_without_validation` of disintegrate-postgres/src/event_store.rs, when it commits.
use disintegrate.Prelude.{
  ◌<◌, ◌≡◌, refl, ◌∙◌, true, false, not, ◌||◌, ◌⊎◌, inl, inr, List, [], ◌∷◌, ◌++◌, map, All,
  All-append, All-weaken, All-zip, eqb, arith, Bool-cases,
}
use disintegrate.Event.{EventId, Event, PersistedEvent}
use disintegrate.Postgres.Append.{SequenceRow, Database, has_id, commit_row, ids_of}
use disintegrate.Postgres.Append.Rows.{Has, IsSound, AllSound}
use disintegrate.Postgres.Append.Validity.{IsValid}
use disintegrate.Postgres.Session.{ready, batching}
use disintegrate.Postgres.Session.Keeps.{Spent, Has-map, All-map, commit-Keeps, commit_row-row}
use disintegrate.Postgres.Session.Served.{
  All-Has, IsRecorded, IsCommitted, IsServed, Keeps-IsCommitted,
}
use disintegrate.Postgres.Session.Kept.{IsKept, own_ids}

All-of_Has :
    (P : SequenceRow → Type 0) (rows : List SequenceRow)
    → ((r : SequenceRow) → Has r rows → P r)
    → All P rows
All-of_Has P [] f = tt
All-of_Has P (r ∷ rows) f = (f r (inl refl), All-of_Has P rows (λ x here. f x (inr here)))

module _ {E : Type 0} (ev : Event E) where
  -- The rows of a batch are consumed.
  Spent-here :
      (es : List (PersistedEvent E)) (rows : List SequenceRow) (r : SequenceRow)
      → All (λ e. Spent rows e.id) es
      → Has r rows
      → has_id (ids_of es) r.row.event_id ≡ true
      → r.consumed ≡ 1
  Spent-here [] rows r s here own = cc own
  Spent-here (e ∷ es) rows r s here own = elim (Bool-cases (eqb e.id r.row.event_id)) [
    | inl y ↦
        let this =
          All-Has (λ r. (not (eqb r.row.event_id e.id) || eqb r.consumed 1) ≡ true) r rows s.0
            here in
        ground arith
    | inr n ↦ Spent-here es rows r s.1 here (ground arith)
  ]

  commit_sound :
      (es : List (PersistedEvent E)) (rows : List SequenceRow)
      → AllSound rows
      → All (λ e. Spent rows e.id) es
      → AllSound (map (commit_row ev (ids_of es)) rows)
  commit_sound es rows sound s =
      All-map (λ r. IsSound r × ((has_id (ids_of es) r.row.event_id ≡ false) ⊎ (r.consumed ≡ 1)))
        IsSound (commit_row ev (ids_of es)) rows (λ r h. ground (arith, h))
        (All-zip IsSound _ rows sound (
          All-of_Has _ rows (λ r here. elim (Bool-cases (has_id (ids_of es) r.row.event_id)) [
            | inl y ↦ inr (Spent-here es rows r s here y)
            | inr n ↦ inl n
          ])))

  batch_own :
      (db db' : Database E) (es : List (PersistedEvent E)) (e : PersistedEvent E)
      → db'.event_sequence ≡ map (commit_row ev (ids_of es)) db.event_sequence
      → has_id (ids_of es) e.id ≡ true
      → 0 < e.id
      → IsRecorded ev db e
      → IsCommitted ev db' e
  batch_own db db' es e shape own stored (r, here, is_row) =
      let mine : has_id (ids_of es) r.row.event_id ≡ true = rw is_row own in
      (
        commit_row ev (ids_of es) r,
        rw shape (Has-map (commit_row ev (ids_of es)) r db.event_sequence here),
        commit_row-row ev (ids_of es) r ∙ is_row,
        ground arith,
        stored,
      )

  pub commits_batch-IsKept :
      (db db' : Database E) (epoch : EventId) (es : List (PersistedEvent E))
      → db'.next_id ≡ db.next_id
      → db'.event ≡ db.event ++ es
      → db'.event_sequence ≡ map (commit_row ev (ids_of es)) db.event_sequence
      → IsValid db
      → All (IsCommitted ev db) db.event
      → IsServed ev db (batching epoch es)
      → IsKept ev db db' ready
  commits_batch-IsKept db db' epoch es n t shape v l s =
      let k = commit-Keeps ev (ids_of es) db db' n shape in
      record {
        keeps = k;
        valid = record {
          sound =
              rw shape
                (commit_sound es db.event_sequence v.sound (All-weaken _ _ es (λ e h. h.3) s.1));
          fresh =
              rw (shape, n)
                (All-map (λ r. r.row.event_id < db.next_id) _ (commit_row ev (ids_of es))
                  db.event_sequence (λ r lt. ground arith) v.fresh);
        };
        logged = rw t (
            All-append _ db.event es (All-weaken _ _ db.event (Keeps-IsCommitted ev db db' k) l) (
              All-weaken _ _ es
                (λ e h. batch_own db db' es e shape h.0 (omega (arith, h.1.0)) h.1.2)
                (All-zip _ _ es (own_ids ev es) s.1)));
        served = tt;
      }
