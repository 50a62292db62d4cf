-- ===== src/Postgres/Append/Validation.antt =====
-- About `append` of disintegrate-postgres/src/event_store.rs and its validation.
use disintegrate.Prelude.{
  ◌≤◌, ◌<◌, ◌≡◌, ◌≢◌, refl, true, false, Option, none, some, List, [], ◌∷◌, ◌++◌, All, all,
  is_empty, arith, Bool-cases, Option-cases, inl, inr,
}
use disintegrate.Prelude.Result.{ok, panicked}
use disintegrate.Event.{EventId, EventInfo, EventSchema, Event, PersistedEvent, event_info}
use disintegrate.Stream.Filter.{StreamFilter}
use disintegrate.Stream.Query
use disintegrate.Stream.Query.{StreamQuery}
use disintegrate.Postgres.Criteria.{Group, groups, kept_events}
use disintegrate.Postgres.Criteria.Rows.{holds, row_of}
use disintegrate.Postgres.Criteria.Text.{is_plain_value}
use disintegrate.Postgres.Criteria.Agreement.{holds_complete}
use disintegrate.Postgres.Append.{
  SequenceRow, Database, has_id, is_true, is_updated, consume, update_rows, parses, last_id, ids_of,
  finish, finish_with, stage_all, append, append_without_validation,
}
use disintegrate.Postgres.Append.Rows.{
  AllSound, Has, IsSound-Has, updated_unconsumed, Has-update_rows,
}

module _ {E : Type 0} where
  -- A transaction that succeeds has updated the rows and inserted its events.
  pub finish_inv :
      (db db' : Database E) (es ps : List (PersistedEvent E)) (gs : List Group)
      → finish db es gs ≡ (db', ok ps)
      → (rows : List SequenceRow) × (update_rows (ids_of es) (last_id 0 es) gs db.event_sequence
          ≡ some rows)
        × (db' ≡ record db { event_sequence = rows; event = db.event ++ es })
        × (ps ≡ es)
        × (parses gs ≡ true)
  unfolding finish
  finish_inv db db' es ps gs h = elim (Bool-cases (parses gs)) [
    | inr n ↦ absurd (ground arith)
    | inl y ↦ elim (Option-cases (update_rows (ids_of es) (last_id 0 es) gs db.event_sequence)) [
      | inl fails ↦ absurd (ground arith)
      | inr (rows, passes) ↦ (rows, passes, ground arith, ground arith, y)
    ]
  ]

  -- If an append gets through, no committed row up to its last id is selected by its criteria.
  pub finish_validates :
      (db db' : Database E) (es ps : List (PersistedEvent E)) (gs : List Group) (r : SequenceRow)
      → finish db es gs ≡ (db', ok ps)
      → AllSound db.event_sequence
      → Has r db.event_sequence
      → r.committed ≡ true
      → r.row.event_id ≤ last_id 0 es
      → is_true (holds r.row gs) ≡ false
  finish_validates db db' es ps gs r h sound here committed le =
      let (rows, passes, shape, same, text) = finish_inv db db' es ps gs h in
      let spent = (IsSound-Has r db.event_sequence sound here).spent in
      elim (Bool-cases (is_true (holds r.row gs))) [
        | inr n ↦ n
        | inl y ↦
            let fresh =
              updated_unconsumed (ids_of es) (last_id 0 es) gs r db.event_sequence rows passes here
                (ground arith) in
            absurd (ground arith)
      ]

  -- If an append gets through whose criteria select a row, not consumed yet and up to its last id,
  -- that a second append has staged, then the second does not get through, whatever its criteria.
  finish_exclusive :
      (db db' : Database E) (es ps : List (PersistedEvent E)) (gs : List Group)
      (es₂ ps₂ : List (PersistedEvent E)) (gs₂ : List Group) (r : SequenceRow)
      → finish db es gs ≡ (db', ok ps)
      → Has r db.event_sequence
      → has_id (ids_of es₂) r.row.event_id ≡ true
      → r.consumed ≡ 0
      → r.row.event_id ≤ last_id 0 es
      → is_true (holds r.row gs) ≡ true
      → (finish db' es₂ gs₂).1 ≢ ok ps₂
  finish_exclusive db db' es ps gs es₂ ps₂ gs₂ r h here mine fresh le selected again =
      let (rows, passes, shape, same, text) = finish_inv db db' es ps gs h in
      let reached : is_updated (ids_of es) (last_id 0 es) gs r ≡ true = ground arith in
      let taken =
        Has-update_rows (ids_of es) (last_id 0 es) gs r db.event_sequence rows passes here in
      let (rows₂, passes₂, shape₂, same₂, text₂) =
        finish_inv db' (finish db' es₂ gs₂).0 es₂ ps₂ gs₂
          (λ i. ((finish db' es₂ gs₂).0, again i)) in
      let lost : Has (consume (ids_of es) (last_id 0 es) gs r) db'.event_sequence =
        rw shape (rw reached at taken) in
      let unspent =
        updated_unconsumed (ids_of es₂) (last_id 0 es₂) gs₂
          (consume (ids_of es) (last_id 0 es) gs r) db'.event_sequence rows₂ passes₂ lost
          (rw mine) in
      absurd (omega arith)

module _ {E : Type 0} (ev : Event E) (schema : EventSchema) where
  criteria_reject :
      (fs : List StreamFilter) (gs : List Group) (info : EventInfo) (e : PersistedEvent E)
      → All (λ g. is_empty (kept_events g) ≡ false) fs
      → groups schema fs ≡ some gs
      → 0 < e.id
      → event_info schema (ev.name e.event) ≡ some info
      → is_true (holds (row_of ev e) gs) ≡ false
      → Query.matches ev (record { filters = fs }) e ≡ false
  unfolding Query.matches
  criteria_reject [] gs info e ne built stored known rejected = refl
  criteria_reject (f ∷ fs) gs info e ne built stored known rejected =
      elim (Bool-cases (Query.matches ev (record { filters = f ∷ fs }) e)) [
        | inr n ↦ n
        | inl y ↦
            let selected = holds_complete schema ev e stored f fs gs ne built info known y in
            absurd (ground arith)
      ]

  finish_with_inv :
      (db db' : Database E) (es ps : List (PersistedEvent E)) (o : Option (List Group))
      → finish_with ev db es o ≡ (db', ok ps)
      → (gs : List Group) × (o ≡ some gs) × (finish db es gs ≡ (db', ok ps))
  finish_with_inv db db' es ps none h = absurd (ground arith)
  finish_with_inv db db' es ps (some gs) h = (gs, refl, h)

  append_inv :
      (between : Database E → Database E) (db db' : Database E) (event : E) (events : List E)
      (q : StreamQuery) (version : EventId) (ps : List (PersistedEvent E))
      → append ev schema between db (event ∷ events) q version ≡ (db', ok ps)
      → (gs : List Group) × (groups schema (Query.change_origin version q).filters ≡ some gs)
        × (finish
              (between (stage_all ev 0 db (event ∷ events)).0)
              (stage_all ev 0 db (event ∷ events)).1
              gs
            ≡ (db', ok ps))
  unfolding append
  append_inv between db db' event events q version ps h =
      finish_with_inv (between (stage_all ev 0 db (event ∷ events)).0) db'
        (stage_all ev 0 db (event ∷ events)).1 ps
        (groups schema (Query.change_origin version q).filters) h

  -- An append of at least one event that gets through has validated its query: no event of a type
  -- that the schema knows, that was committed when the update ran and has an id up to the last of
  -- the new ids, is matched by the query from the version on. No filter of the query may exclude all
  -- of its events or have a quote in a value, and the table must be sound when the update runs.
  pub append_validates :
      (between : Database E → Database E) (db db' : Database E) (event : E) (events : List E)
      (q : StreamQuery) (version : EventId) (ps : List (PersistedEvent E)) (info : EventInfo)
      (e : PersistedEvent E) (r : SequenceRow)
      → append ev schema between db (event ∷ events) q version ≡ (db', ok ps)
      → All (λ g. is_empty (kept_events g) ≡ false) (Query.change_origin version q).filters
      → All
          (λ g. all (λ p. is_plain_value p.1) g.identifiers ≡ true)
          (Query.change_origin version q).filters
      → AllSound (between (stage_all ev 0 db (event ∷ events)).0).event_sequence
      → Has r (between (stage_all ev 0 db (event ∷ events)).0).event_sequence
      → r.row ≡ row_of ev e
      → r.committed ≡ true
      → 0 < e.id
      → e.id ≤ last_id 0 ps
      → event_info schema (ev.name e.event) ≡ some info
      → Query.matches ev (Query.change_origin version q) e ≡ false
  append_validates between db db' event events q version ps info e r done some_event plain sound
        here is_row committed stored le known =
      let (gs, built, finished) = append_inv between db db' event events q version ps done in
      let staged = between (stage_all ev 0 db (event ∷ events)).0 in
      let es = (stage_all ev 0 db (event ∷ events)).1 in
      let (rows, passes, shape, same, text) = finish_inv staged db' es ps gs finished in
      let up_to : r.row.event_id ≤ last_id 0 es = rw (is_row, ← same) le in
      let rejected = finish_validates staged db' es ps gs r finished sound here committed up_to in
      criteria_reject (Query.change_origin version q).filters gs info e some_event built stored
        known (rw is_row at rejected)

  -- A batch without validation needs an event: with none it panics, where `append` returns nothing.
  pub append_without_validation_empty :
      (db : Database E) (between : Database E → Database E) (q : StreamQuery) (version : EventId)
      → ((append_without_validation ev db []).1 ≡ panicked)
        × (append ev schema between db [] q version ≡ (db, ok []))
  unfolding append append_without_validation
  append_without_validation_empty db between q version = (refl, refl)
