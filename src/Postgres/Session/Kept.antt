-- ===== src/Postgres/Session/Kept.antt =====
-- About the actions of a client of the PostgreSQL store: what each keeps of the tables.
use disintegrate.Prelude.{ℕ, ◌≤◌, ◌<◌, ◌≡◌, refl, true, List, [], ◌∷◌, All, All-weaken, arith}
use disintegrate.Event.{Event, PersistedEvent}
use disintegrate.Postgres.Append.{Database, has_id, stage, ids_of}
use disintegrate.Postgres.Append.Validity.{IsValid, stage-IsValid}
use disintegrate.Postgres.Session.{Client, max_id}
use disintegrate.Postgres.Session.Keeps.{Keeps, Has-append_last, Keeps-refl, stage-Keeps}
use disintegrate.Postgres.Session.Served.{
  All-Has, IsRecorded, IsCommitted, IsServed, Keeps-IsCommitted,
}

module _ {E : Type 0} (ev : Event E) where
  -- What a step of one client guarantees.
  pub record IsKept (db db' : Database E) (c : Client E) : Type 0 where
    pub keeps : Keeps db db'
    pub valid : IsValid db'
    pub logged : All (IsCommitted ev db') db'.event
    pub served : IsServed ev db' c

  pub unchanged :
      (db : Database E) (c : Client E)
      → IsValid db
      → All (IsCommitted ev db) db.event
      → IsServed ev db c
      → IsKept db db c
  unchanged db c v l s = record {
    keeps = Keeps-refl db db refl refl;
    valid = v;
    logged = l;
    served = s;
  }

  pub max_id-fresh :
      (db : Database E) (es : List (PersistedEvent E))
      → 0 < db.next_id
      → IsValid db
      → All (IsCommitted ev db) es
      → max_id es < db.next_id
  max_id-fresh db [] pos v l = pos
  max_id-fresh db (e ∷ es) pos v l =
      let (r, here, is_row, committed, stored) = l.0 in
      let below = All-Has (λ r. r.row.event_id < db.next_id) r db.event_sequence v.fresh here in
      let mine : e.id < db.next_id = rw is_row at below in
      omega (arith, max_id-fresh db es pos v l.1)

  pub own_ids : (es : List (PersistedEvent E)) → All (λ e. has_id (ids_of es) e.id ≡ true) es
  own_ids [] = tt
  own_ids (e ∷ es) = (ground arith, All-weaken _ _ es (λ x h. ground arith) (own_ids es))

  -- The tables after a row is staged.
  pub stage_kept :
      (consumed : ℕ) (db : Database E) (event : E)
      → consumed ≤ 1
      → IsValid db
      → All (IsCommitted ev db) db.event
      → (k : Keeps db (stage ev consumed db event).0) × IsValid (stage ev consumed db event).0
        × All (IsCommitted ev (stage ev consumed db event).0) (stage ev consumed db event).0.event
        × IsRecorded ev (stage ev consumed db event).0 (stage ev consumed db event).1
  unfolding stage
  stage_kept consumed db event le v l =
      let k = stage-Keeps ev consumed db event in
      (
        k,
        stage-IsValid ev consumed db event le v,
        All-weaken _ _ db.event (Keeps-IsCommitted ev db (stage ev consumed db event).0 k) l,
        (_, Has-append_last _ db.event_sequence, refl),
      )
