-- ===== src/Postgres/Append/Validity.antt =====
-- About the tables that disintegrate-postgres/src/event_store.rs works on.
use disintegrate.Prelude.{
  ℕ, ◌+◌, ◌≤◌, ◌<◌, refl, Option, none, some, List, [], ◌∷◌, All, All-append, All-weaken, arith,
  Bool-cases, Option-cases, inl, inr,
}
use disintegrate.Event.{EventId, EventSchema, Event, PersistedEvent}
use disintegrate.Stream.Query
use disintegrate.Stream.Query.{StreamQuery}
use disintegrate.Postgres.Criteria.{Group, groups}
use disintegrate.Postgres.Append.{
  Database, update_rows, parses, last_id, ids_of, finish, finish_with, stage, stage_all, append,
}
use disintegrate.Postgres.Append.Rows.{IsSound, AllSound, update_rows-AllSound, update_rows-ids}

-- The ids that are in use lie below the next one, and the rows are sound.
pub record IsValid {E : Type 0} (db : Database E) : Type 0 where
  pub sound : AllSound db.event_sequence
  pub fresh : All (λ r. r.row.event_id < db.next_id) db.event_sequence

module _ {E : Type 0} (ev : Event E) where
  pub stage-IsValid :
      (consumed : ℕ) (db : Database E) (event : E)
      → consumed ≤ 1
      → IsValid db
      → IsValid (stage ev consumed db event).0
  unfolding stage
  stage-IsValid consumed db event le v = record {
    sound =
        All-append IsSound db.event_sequence _ v.sound
          (record { checked = le; spent = inl refl }, tt);
    fresh =
        All-append (λ r. r.row.event_id < db.next_id + 1) db.event_sequence _
          (All-weaken (λ r. r.row.event_id < db.next_id) (λ r. r.row.event_id < db.next_id + 1)
            db.event_sequence (λ r lt. omega arith) v.fresh)
          (omega arith, tt);
  }

  stage_all-IsValid :
      (consumed : ℕ) (db : Database E) (events : List E)
      → consumed ≤ 1
      → IsValid db
      → IsValid (stage_all ev consumed db events).0
  unfolding stage_all
  stage_all-IsValid consumed db [] le v = v
  stage_all-IsValid consumed db (event ∷ events) le v =
      stage_all-IsValid consumed (stage ev consumed db event).0 events le
        (stage-IsValid consumed db event le v)

  finish-IsValid :
      (db : Database E) (es : List (PersistedEvent E)) (gs : List Group)
      → IsValid db
      → IsValid (finish db es gs).0
  unfolding finish
  finish-IsValid db es gs v = elim (Bool-cases (parses gs)) [
    | inr n ↦ rw n v
    | inl y ↦ elim (Option-cases (update_rows (ids_of es) (last_id 0 es) gs db.event_sequence)) [
      | inl fails ↦ rw (y, fails) v
      | inr (rows, passes) ↦
          rw (y, passes)
            (record {
              sound =
                  update_rows-AllSound (ids_of es) (last_id 0 es) gs db.event_sequence rows v.sound
                    passes;
              fresh =
                  update_rows-ids (ids_of es) (last_id 0 es) gs db.next_id db.event_sequence rows
                    v.fresh passes;
            })
    ]
  ]

  finish_with-IsValid :
      (db : Database E) (es : List (PersistedEvent E)) (gs : Option (List Group))
      → IsValid db
      → IsValid (finish_with ev db es gs).0
  finish_with-IsValid db es none v = v
  finish_with-IsValid db es (some gs) v = finish-IsValid db es gs v

  -- Whatever an append returns, it leaves the tables valid if they were valid before and the other
  -- clients keep them valid.
  pub append-IsValid :
      (schema : EventSchema) (between : Database E → Database E) (db : Database E) (events : List E)
      (q : StreamQuery) (version : EventId)
      → ((d : Database E) → IsValid d → IsValid (between d))
      → IsValid db
      → IsValid (append ev schema between db events q version).0
  unfolding append
  append-IsValid schema between db [] q version keeps v = v
  append-IsValid schema between db (event ∷ events) q version keeps v =
      let (staged, es) = stage_all ev 0 db (event ∷ events) in
      finish_with-IsValid (between staged) es
        (groups schema (Query.change_origin version q).filters)
        (keeps staged (stage_all-IsValid 0 db (event ∷ events) (omega arith) v))
