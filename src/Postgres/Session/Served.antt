-- ===== src/Postgres/Session/Served.antt =====
-- What the store keeps for a client of the PostgreSQL store, and that its actions respect it.
use disintegrate.Prelude.{◌<◌, ◌≡◌, ◌∙◌, true, inl, inr, List, [], ◌∷◌, All, All-weaken, arith}
use disintegrate.Event.{Event, PersistedEvent}
use disintegrate.Postgres.Criteria.Rows.{row_of}
use disintegrate.Postgres.Append.{SequenceRow, Database}
use disintegrate.Postgres.Append.Rows.{Has}
use disintegrate.Postgres.Session.{Client, ready, staging, updated, inserted, batching}
use disintegrate.Postgres.Session.Keeps.{Spent, Keeps}

pub All-Has :
    (P : SequenceRow → Type 0) (r : SequenceRow) (rows : List SequenceRow)
    → All P rows
    → Has r rows
    → P r
All-Has P r [] h here = absurd here
All-Has P r (x ∷ rows) h (inl same) = rw same at h.0
All-Has P r (x ∷ rows) h (inr later) = All-Has P r rows h.1 later

module _ {E : Type 0} (ev : Event E) where
  -- The event has a row.
  abbrev pub IsRecorded : Database E → PersistedEvent E → Type 0
  IsRecorded db e = (r : SequenceRow) × Has r db.event_sequence × (r.row ≡ row_of ev e)

  -- The event has an id and a committed row.
  abbrev pub IsCommitted : Database E → PersistedEvent E → Type 0
  IsCommitted db e =
      (r : SequenceRow) × Has r db.event_sequence
      × (r.row ≡ row_of ev e)
      × (r.committed ≡ true)
      × (0 < e.id)

  -- What a client has staged is recorded, and later than its epoch.
  abbrev pub IsServed : Database E → Client E → Type 0
  IsServed db ready = Unit
  IsServed db (staging epoch es) =
      (epoch < db.next_id) × All (λ e. (epoch < e.id) × IsRecorded db e) es
  IsServed db (updated epoch es) =
      (epoch < db.next_id) × All (λ e. (epoch < e.id) × IsCommitted db e) es
  IsServed db (inserted epoch) = epoch < db.next_id
  IsServed db (batching epoch es) =
      (epoch < db.next_id)
      × All
          (λ e.
            (epoch < e.id) × (e.id < db.next_id) × IsRecorded db e × Spent db.event_sequence e.id)
          es

  module _ (db db' : Database E) (k : Keeps db db') where
    pub Keeps-IsRecorded : (e : PersistedEvent E) → IsRecorded db e → IsRecorded db' e
    Keeps-IsRecorded e (r, here, is_row) =
        let (r', here', alike, flag) = k.rows r here in (r', here', alike ∙ is_row)

    pub Keeps-IsCommitted : (e : PersistedEvent E) → IsCommitted db e → IsCommitted db' e
    Keeps-IsCommitted e (r, here, is_row, committed, stored) =
        let (r', here', alike, flag) = k.rows r here in
        (r', here', alike ∙ is_row, ground (arith, flag), stored)

    pub Keeps-IsServed : (c : Client E) → IsServed db c → IsServed db' c
    Keeps-IsServed ready s = tt
    Keeps-IsServed (staging epoch es) s =
        (omega (arith, k.grows), All-weaken _ _ es (λ e h. (h.0, Keeps-IsRecorded e h.1)) s.1)
    Keeps-IsServed (updated epoch es) s =
        (omega (arith, k.grows), All-weaken _ _ es (λ e h. (h.0, Keeps-IsCommitted e h.1)) s.1)
    Keeps-IsServed (inserted epoch) s = omega (arith, k.grows)
    Keeps-IsServed (batching epoch es) s = (
      omega (arith, k.grows),
      All-weaken _ _ es
          (λ e h. (h.0, omega (arith, k.grows), Keeps-IsRecorded e h.2, k.spent e.id h.1 h.3)) s.1,
    )
