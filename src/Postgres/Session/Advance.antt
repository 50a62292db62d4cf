-- ===== src/Postgres/Session/Advance.antt =====
-- About the order of the epochs of disintegrate-postgres/src/event_store/sql.
use disintegrate.Prelude.{
  ℕ, zero, suc, ◌≤◌, Option, none, some, List, [], ◌∷◌, ◌++◌, All, All-weaken, All-zip, arith,
  Bool-cases, Option-cases, inl, inr,
}
use disintegrate.Event.{EventId, Event, PersistedEvent}
use disintegrate.Postgres.Append.{Database, stage, update_rows, ids_of, last_id}
use disintegrate.Postgres.Session.{
  Client, ready, staging, updated, inserted, batching, World, Action, begin, stages, updates,
  inserts, commits, begin_batch, stages_batch, commits_batch, quits, max_id, is_checked, effect,
  step_at, step, run, lock, pending, current_epoch,
}
use disintegrate.Postgres.Session.Epoch.{IsFrom, least-IsFrom, pending-IsFrom, epoch-IsFrom}

-- There is no lock, or it is not after the id.
abbrev IsUpTo : EventId → Option EventId → Type 0
IsUpTo n none = Unit
IsUpTo n (some held) = held ≤ n

IsUpTo-grow : (m n : EventId) (l : Option EventId) → m ≤ n → IsUpTo m l → IsUpTo n l
IsUpTo-grow m n none le h = tt
IsUpTo-grow m n (some held) le h = omega (arith, le, h)

-- Every lock is the id of an event, or 0, that was the last one once.
abbrev pub IsBehind : {E : Type 0} → World E → Type 0
IsBehind w = All (λ c. IsUpTo (max_id w.db.event) (lock c)) w.clients

module _ {E : Type 0} where
  max_id-append : (es es' : List (PersistedEvent E)) → max_id es ≤ max_id (es ++ es')
  max_id-append [] es' = omega arith
  max_id-append (e ∷ es) es' = omega (arith, max_id-append es es')

  all-pending :
      (n : EventId) (cs : List (Client E)) → All (λ c. IsFrom n (lock c)) cs → IsFrom n (pending cs)
  all-pending n [] h = tt
  all-pending n (c ∷ cs) h = least-IsFrom n (lock c) (pending cs) h.0 (all-pending n cs h.1)

module _ {E : Type 0} (ev : Event E) (n : EventId) where
  -- The lock of the client is between the id and the last event.
  abbrev IsWithin : EventId → Client E → Type 0
  IsWithin top c = IsFrom n (lock c) × IsUpTo top (lock c)

  effect-IsWithin :
      (a : Action E) (db : Database E) (c : Client E)
      → n ≤ max_id db.event
      → IsWithin (max_id db.event) c
      → (max_id db.event ≤ max_id (effect ev a db c).0.event)
        × IsWithin (max_id (effect ev a db c).0.event) (effect ev a db c).1
  unfolding effect stage
  effect-IsWithin begin db ready le h = (omega arith, (le, omega arith))
  effect-IsWithin begin_batch db ready le h = (omega arith, (le, omega arith))
  effect-IsWithin (stages event) db (staging epoch es) le h = (omega arith, h)
  effect-IsWithin (stages_batch event) db (batching epoch es) le h = (omega arith, h)
  effect-IsWithin (updates gs) db (staging epoch es) le h =
      elim (Bool-cases (is_checked ev gs es)) [
        | inr no_text ↦ rw no_text (omega arith, (tt, tt))
        | inl y ↦
            elim (Option-cases (update_rows (ids_of es) (last_id 0 es) gs db.event_sequence)) [
              | inl fails ↦ rw (y, fails) (omega arith, (tt, tt))
              | inr (rows, passes) ↦ rw (y, passes) (omega arith, h)
            ]
      ]
  effect-IsWithin inserts db (updated epoch es) le h =
      let grows = max_id-append db.event es in (grows, (h.0, omega (arith, grows, h.1)))
  effect-IsWithin commits db (inserted epoch) le h = (omega arith, (tt, tt))
  effect-IsWithin commits_batch db (batching epoch es) le h = (max_id-append db.event es, (tt, tt))
  effect-IsWithin quits db (staging epoch es) le h = (omega arith, (tt, tt))
  effect-IsWithin quits db (batching epoch es) le h = (omega arith, (tt, tt))
  effect-IsWithin _ db c le h = (omega arith, h)

  step_at-IsWithin :
      (i : ℕ) (a : Action E) (db : Database E) (cs : List (Client E))
      → n ≤ max_id db.event
      → All (IsWithin (max_id db.event)) cs
      → (max_id db.event ≤ max_id (step_at ev i a db cs).0.event)
        × All (IsWithin (max_id (step_at ev i a db cs).0.event)) (step_at ev i a db cs).1
  unfolding step_at
  step_at-IsWithin i a db [] le h = (omega arith, tt)
  step_at-IsWithin zero a db (c ∷ cs) le h =
      let (grows, kept) = effect-IsWithin a db c le h.0 in
      (grows, (kept, All-weaken _ _ cs (λ x p. (p.0, IsUpTo-grow _ _ (lock x) grows p.1)) h.1))
  step_at-IsWithin (suc i) a db (c ∷ cs) le h =
      let (grows, kept) = step_at-IsWithin i a db cs le h.1 in
      (grows, ((h.0.0, IsUpTo-grow _ _ (lock c) grows h.0.1), kept))

  run-IsWithin :
      (w : World E) (actions : List (ℕ × Action E))
      → n ≤ max_id w.db.event
      → All (IsWithin (max_id w.db.event)) w.clients
      → (n ≤ max_id (run ev w actions).db.event)
        × All (IsWithin (max_id (run ev w actions).db.event)) (run ev w actions).clients
  unfolding run step
  run-IsWithin w [] le h = (le, h)
  run-IsWithin w ((i, a) ∷ actions) le h =
      let (grows, kept) = step_at-IsWithin i a w.db w.clients le h in
      run-IsWithin (step ev w (i, a)) actions (omega (arith, le, grows)) kept

module _ {E : Type 0} where
  from-current_epoch :
      (w : World E) (n : EventId)
      → n ≤ max_id w.db.event
      → IsFrom n (pending w.clients)
      → n ≤ current_epoch w
  unfolding current_epoch
  from-current_epoch w n le h = elim (Option-cases (pending w.clients)) [
    | inl idle ↦ rw idle le
    | inr (p, held) ↦ rw held (rw held at h)
  ]

  upto_pending :
      (n : EventId) (cs : List (Client E)) → All (λ c. IsUpTo n (lock c)) cs → IsUpTo n (pending cs)
  upto_pending n [] h = tt
  upto_pending n (c ∷ cs) h = elim (Option-cases (lock c)) [
    | inl idle ↦ rw idle (upto_pending n cs h.1)
    | inr (p, held) ↦ elim (Option-cases (pending cs)) [
      | inl idle ↦ rw (held, idle) (rw held at h.0)
      | inr (q, held') ↦ rw (held, held') (omega (arith, rw held at h.0))
    ]
  ]

  current_epoch-upto : (w : World E) → IsBehind w → current_epoch w ≤ max_id w.db.event
  unfolding current_epoch
  current_epoch-upto w b = elim (Option-cases (pending w.clients)) [
    | inl idle ↦ rw idle (omega arith)
    | inr (p, held) ↦ rw held (rw held at (upto_pending (max_id w.db.event) w.clients b))
  ]

module _ {E : Type 0} (ev : Event E) where
  -- If no client holds an epoch after the last event, then the epoch of the store never goes back,
  -- whatever the clients do, in any order, and still no client holds an epoch after the last event.
  pub run-current_epoch :
      (w : World E) (actions : List (ℕ × Action E))
      → IsBehind w
      → (current_epoch w ≤ current_epoch (run ev w actions)) × IsBehind (run ev w actions)
  run-current_epoch w actions b =
      let n = current_epoch w in
      let held = pending-IsFrom n w.clients (epoch-IsFrom ev w) in
      let (le, within) =
        run-IsWithin ev n w actions (current_epoch-upto w b) (All-zip _ _ w.clients held b) in
      (
        from-current_epoch (run ev w actions) n le (
            all-pending n (run ev w actions).clients
              (All-weaken _ _ (run ev w actions).clients (λ c h. h.0) within)),
        All-weaken _ _ (run ev w actions).clients (λ c h. h.1) within,
      )
