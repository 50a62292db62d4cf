-- ===== src/Postgres/Listener/Tasks/Starting.antt =====
-- About `start` of disintegrate-postgres/src/listener.rs: the rows and the tasks that it leaves.
use disintegrate.Prelude.{
  ◌≡◌, refl, sym, ◌∙◌, Bool, Option, none, some, List, [], ◌∷◌, ◌++◌, append-nil, append_assoc, map,
  All, All-weaken, String, ◌==◌, eq_iff, eq_refl, arith, if◌then◌else◌,
}
use disintegrate.Prelude.Result.{ok, err}
use disintegrate.Event.{EventId}
use disintegrate.Postgres.Listener.{ListenerRow, SqlxError, init}
use disintegrate.Postgres.Listener.Tasks.{
  PgEventListener, PgEventListerExecutor, Process, spawn, launch, start,
}

-- The cursor of a listener's row.
abbrev pub cursor_of : String → List ListenerRow → Option EventId
cursor_of id [] = none
cursor_of id (r ∷ rows) =
    let rest = cursor_of id rows in if r.id == id then some r.last_processed_event_id else rest

abbrev pub or_first : Option EventId → Option EventId
or_first none = some 0
or_first (some c) = some c

cursor_of-init :
    (id other : String) (rows : List ListenerRow)
    → cursor_of other (init id rows)
      ≡ (if id == other then or_first (cursor_of other rows) else cursor_of other rows)
unfolding init
cursor_of-init id other [] = ground arith
cursor_of-init id other (r ∷ rows) =
    ground (arith, cursor_of-init id other rows, eq_iff id other, eq_iff r.id other, eq_iff r.id id)

or_first-some : (o : Option EventId) → (c : EventId) × (or_first o ≡ some c)
or_first-some none = (0, refl)
or_first-some (some c) = (c, refl)

or_first-init :
    (id other : String) (rows : List ListenerRow)
    → or_first (cursor_of other (init id rows)) ≡ or_first (cursor_of other rows)
or_first-init id other rows = ground (arith, cursor_of-init id other rows)

module _ {W E : Type 0} where
  -- A cursor that a listener has is kept, whatever fails.
  launch-cursor :
      (xs : List (PgEventListerExecutor W E)) (faults : List (Option SqlxError)) (p : Process W E)
      (id : String) (c : EventId)
      → cursor_of id p.rows ≡ some c
      → cursor_of id (launch xs faults p).0.rows ≡ some c
  unfolding launch
  launch-cursor [] faults p id c h = h
  launch-cursor (x ∷ xs) (some f ∷ faults) p id c h = h
  launch-cursor (x ∷ xs) (none ∷ faults) p id c h =
      launch-cursor xs faults _ id c (ground (arith, cursor_of-init x.event_handler.id id p.rows))
  launch-cursor (x ∷ xs) [] p id c h =
      launch-cursor xs [] _ id c (ground (arith, cursor_of-init x.event_handler.id id p.rows))

  launched :
      (xs : List (PgEventListerExecutor W E)) (p : Process W E)
      → ((launch xs [] p).1 ≡ ok tt)
        × ((launch xs [] p).0.tasks ≡ p.tasks ++ map spawn xs)
        × All
            (λ (x : PgEventListerExecutor W E).
              cursor_of x.event_handler.id (launch xs [] p).0.rows
              ≡ or_first (cursor_of x.event_handler.id p.rows))
            xs
  unfolding launch
  launched [] p = (refl, sym (append-nil p.tasks), tt)
  launched (x ∷ xs) p =
      let p' : Process W E = record p {
        rows = init x.event_handler.id p.rows;
        tasks = p.tasks ++ spawn x ∷ [];
      } in
      let (result, tasks, rows) = launched xs p' in
      let (c, first) = or_first-some (cursor_of x.event_handler.id p.rows) in
      let here : cursor_of x.event_handler.id p'.rows ≡ some c = ground (
        arith,
        cursor_of-init x.event_handler.id x.event_handler.id p.rows,
        eq_refl x.event_handler.id,
      ) in
      (
        result,
        tasks ∙ append_assoc p.tasks (spawn x ∷ []) (map spawn xs),
        (
          launch-cursor xs [] p' x.event_handler.id c here ∙ sym first,
          All-weaken
              (λ (y : PgEventListerExecutor W E).
                cursor_of y.event_handler.id (launch xs [] p').0.rows
                ≡ or_first (cursor_of y.event_handler.id p'.rows))
              (λ (y : PgEventListerExecutor W E).
                cursor_of y.event_handler.id (launch xs [] p').0.rows
                ≡ or_first (cursor_of y.event_handler.id p.rows))
              xs (λ y h. h ∙ or_first-init x.event_handler.id y.event_handler.id p.rows) rows,
        ),
      )

  -- Without a fault of the database a start runs a task for each registered listener, in their order, and
  -- each of them has a row: with the cursor that it had before, or with 0 if it had none.
  start-launched :
      (l : PgEventListener W E) (p : Process W E)
      → let (p', result) = start l (ok tt) [] p in
        (result ≡ ok tt)
        × (p'.tasks ≡ p.tasks ++ map spawn l.executors)
        × All
            (λ (x : PgEventListerExecutor W E).
              cursor_of x.event_handler.id p'.rows ≡ or_first (cursor_of x.event_handler.id p.rows))
            l.executors
  unfolding start
  start-launched l p = launched l.executors p

  abbrev faultless :
      List (PgEventListerExecutor W E) → List (Option SqlxError) → List (Option SqlxError)
  faultless [] faults = faults
  faultless (x ∷ xs) faults = none ∷ faultless xs faults

  launch_fault :
      (xs ys : List (PgEventListerExecutor W E)) (y : PgEventListerExecutor W E) (fault : SqlxError)
      (p : Process W E)
      → let (p', result) = launch (xs ++ y ∷ ys) (faultless xs (some fault ∷ [])) p in
        (result ≡ err fault) × (p'.tasks ≡ p.tasks ++ map spawn xs)
  unfolding launch
  launch_fault [] ys y fault p = (refl, sym (append-nil p.tasks))
  launch_fault (x ∷ xs) ys y fault p =
      let (result, tasks) =
        launch_fault xs ys y fault
          (record p { rows = init x.event_handler.id p.rows; tasks = p.tasks ++ spawn x ∷ [] }) in
      (result, tasks ∙ append_assoc p.tasks (spawn x ∷ []) (map spawn xs))

  -- A start whose statement for the row of one listener fails returns the error, and leaves the tasks of
  -- the listeners registered before it running.
  start_fault :
      (init_tables : Bool) (xs ys : List (PgEventListerExecutor W E))
      (y : PgEventListerExecutor W E) (fault : SqlxError) (p : Process W E)
      → let (p', result) =
          start
            (record { executors = xs ++ y ∷ ys; intialize = init_tables })
            (ok tt)
            (faultless xs (some fault ∷ []))
            p in
        (result ≡ err fault) × (p'.tasks ≡ p.tasks ++ map spawn xs)
  unfolding start
  start_fault init_tables xs ys y fault p = launch_fault xs ys y fault p
