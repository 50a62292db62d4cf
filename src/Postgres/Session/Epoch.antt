-- ===== src/Postgres/Session/Epoch.antt =====
-- About the epoch of disintegrate-postgres/src/event_store/sql/fn_event_store_current_epoch.sql.
use disintegrate.Prelude.{
  ℕ, zero, suc, ◌≤◌, ◌<◌, ◌≡◌, refl, Option, none, some, List, [], ◌∷◌, ◌++◌, leb, filter,
  filter-append, append-nil, All, All-append, All-weaken, All-zip, arith, Bool-cases, Option-cases,
  inl, inr,
}
use disintegrate.Event.{EventId, Event, PersistedEvent}
use disintegrate.Postgres.Append.{Database, stage, update_rows, ids_of, last_id}
use disintegrate.Postgres.Session.{
  Client, ready, staging, updated, inserted, batching, World, Action, begin, stages, updates,
  inserts, commits, begin_batch, stages_batch, commits_batch, quits, is_checked, effect, step_at,
  step, run, lock, least, pending, current_epoch,
}
use disintegrate.Postgres.Session.Served.{IsServed}
use disintegrate.Postgres.Session.Kept.{max_id-fresh}
use disintegrate.Postgres.Session.Consistent.{IsConsistent}

-- `event_id <= epoch`
abbrev pub up_to : {E : Type 0} → EventId → List (PersistedEvent E) → List (PersistedEvent E)
up_to epoch es = filter (λ e. leb e.id epoch) es

-- The events that a client has staged.
abbrev pub staged_by : {E : Type 0} → Client E → List (PersistedEvent E)
staged_by ready = []
staged_by (staging epoch es) = es
staged_by (updated epoch es) = es
staged_by (inserted epoch) = []
staged_by (batching epoch es) = es

-- There is no lock, or it is not before the id.
abbrev pub IsFrom : EventId → Option EventId → Type 0
IsFrom n none = Unit
IsFrom n (some held) = n ≤ held

IsFrom-least : (n : EventId) (a b : Option EventId) → IsFrom n (least a b) → IsFrom n a × IsFrom n b
IsFrom-least n none b h = (tt, h)
IsFrom-least n (some a) none h = (h, tt)
IsFrom-least n (some a) (some b) h = (omega (arith, h), omega (arith, h))

-- There is no lock, or it is before the id.
abbrev IsBefore : EventId → Option EventId → Type 0
IsBefore n none = Unit
IsBefore n (some held) = held < n

least-IsBefore :
    (n : EventId) (a b : Option EventId) → IsBefore n a → IsBefore n b → IsBefore n (least a b)
least-IsBefore n none b ha hb = hb
least-IsBefore n (some a) none ha hb = ha
least-IsBefore n (some a) (some b) ha hb = omega (arith, ha, hb)

pub least-IsFrom :
    (n : EventId) (a b : Option EventId) → IsFrom n a → IsFrom n b → IsFrom n (least a b)
least-IsFrom n none b ha hb = hb
least-IsFrom n (some a) none ha hb = ha
least-IsFrom n (some a) (some b) ha hb = omega (arith, ha, hb)

module _ {E : Type 0} where
  later_up_to :
      (n : EventId) (es : List (PersistedEvent E)) → All (λ e. n < e.id) es → up_to n es ≡ []
  later_up_to n [] h = refl
  later_up_to n (e ∷ es) h = ground (arith, later_up_to n es h.1)

  pub pending-IsFrom :
      (n : EventId) (cs : List (Client E)) → IsFrom n (pending cs) → All (λ c. IsFrom n (lock c)) cs
  pending-IsFrom n [] h = tt
  pending-IsFrom n (c ∷ cs) h =
      let (here, there) = IsFrom-least n (lock c) (pending cs) h in
      (here, pending-IsFrom n cs there)

-- What the client has staged is later than the id.
abbrev IsLater : {E : Type 0} → EventId → Client E → Type 0
IsLater n c = All (λ e. n < e.id) (staged_by c)

module _ {E : Type 0} (ev : Event E) (n : EventId) (old : List (PersistedEvent E)) where
  -- The table `event` has the old events up to the id, and what is staged is later.
  record IsPast (db : Database E) : Type 0 where
    ahead : n < db.next_id
    past : up_to n db.event ≡ up_to n old

  IsPast-append :
      (db db' : Database E) (es : List (PersistedEvent E))
      → db'.next_id ≡ db.next_id
      → db'.event ≡ db.event ++ es
      → IsPast db
      → All (λ e. n < e.id) es
      → IsPast db'
  IsPast-append db db' es same shape p later = record {
    ahead = rw same p.ahead;
    past =
        rw (shape, filter-append (λ e. leb e.id n) db.event es, later_up_to n es later, append-nil)
          p.past;
  }

  effect-IsPast :
      (a : Action E) (db : Database E) (c : Client E)
      → IsPast db
      → IsLater n c
      → IsPast (effect ev a db c).0 × IsLater n (effect ev a db c).1
  unfolding effect stage
  effect-IsPast begin db ready p l = (p, tt)
  effect-IsPast begin_batch db ready p l = (p, tt)
  effect-IsPast (stages event) db (staging epoch es) p l =
      (record { ahead = omega (arith, p.ahead); past = p.past }, All-append _ es _ l (p.ahead, tt))
  effect-IsPast (stages_batch event) db (batching epoch es) p l =
      (record { ahead = omega (arith, p.ahead); past = p.past }, All-append _ es _ l (p.ahead, tt))
  effect-IsPast (updates gs) db (staging epoch es) p l = elim (Bool-cases (is_checked ev gs es)) [
    | inr n ↦ rw n (p, tt)
    | inl y ↦ elim (Option-cases (update_rows (ids_of es) (last_id 0 es) gs db.event_sequence)) [
      | inl fails ↦ rw (y, fails) (p, tt)
      | inr (rows, passes) ↦ rw (y, passes) (record { ahead = p.ahead; past = p.past }, l)
    ]
  ]
  effect-IsPast inserts db (updated epoch es) p l =
      (IsPast-append db (record db { event = db.event ++ es }) es refl refl p l, tt)
  effect-IsPast commits db (inserted epoch) p l = (p, tt)
  effect-IsPast commits_batch db (batching epoch es) p l = (IsPast-append db _ es refl refl p l, tt)
  effect-IsPast quits db (staging epoch es) p l = (p, tt)
  effect-IsPast quits db (batching epoch es) p l = (p, tt)
  effect-IsPast _ db c p l = (p, l)

  step_at-IsPast :
      (i : ℕ) (a : Action E) (db : Database E) (cs : List (Client E))
      → IsPast db
      → All (IsLater n) cs
      → IsPast (step_at ev i a db cs).0 × All (IsLater n) (step_at ev i a db cs).1
  unfolding step_at
  step_at-IsPast i a db [] p l = (p, tt)
  step_at-IsPast zero a db (c ∷ cs) p l =
      let (p', l') = effect-IsPast a db c p l.0 in (p', (l', l.1))
  step_at-IsPast (suc i) a db (c ∷ cs) p l =
      let (p', l') = step_at-IsPast i a db cs p l.1 in (p', (l.0, l'))

  run-IsPast :
      (w : World E) (actions : List (ℕ × Action E))
      → IsPast w.db
      → All (IsLater n) w.clients
      → IsPast (run ev w actions).db
  unfolding run step
  run-IsPast w [] p l = p
  run-IsPast w ((i, a) ∷ actions) p l =
      let (p', l') = step_at-IsPast i a w.db w.clients p l in
      run-IsPast (step ev w (i, a)) actions p' l'

module _ {E : Type 0} (ev : Event E) where
  served-IsLater :
      (db : Database E) (n : EventId) (c : Client E)
      → IsServed ev db c
      → IsFrom n (lock c)
      → IsLater n c
  served-IsLater db n ready s h = tt
  served-IsLater db n (staging epoch es) s h = All-weaken _ _ es (λ e q. omega (arith, h, q.0)) s.1
  served-IsLater db n (updated epoch es) s h = All-weaken _ _ es (λ e q. omega (arith, h, q.0)) s.1
  served-IsLater db n (inserted epoch) s h = tt
  served-IsLater db n (batching epoch es) s h = All-weaken _ _ es (λ e q. omega (arith, h, q.0)) s.1

  served_locks :
      (db : Database E) (c : Client E)
      → 0 < db.next_id
      → IsServed ev db c
      → IsBefore db.next_id (lock c)
  served_locks db ready pos s = tt
  served_locks db (staging epoch es) pos s = s.0
  served_locks db (updated epoch es) pos s = s.0
  served_locks db (inserted epoch) pos s = s
  served_locks db (batching epoch es) pos s = s.0

  pending-IsBefore :
      (n : EventId) (cs : List (Client E))
      → All (λ c. IsBefore n (lock c)) cs
      → IsBefore n (pending cs)
  pending-IsBefore n [] h = tt
  pending-IsBefore n (c ∷ cs) h =
      least-IsBefore n (lock c) (pending cs) h.0 (pending-IsBefore n cs h.1)

  epoch-fresh : (w : World E) → IsConsistent ev w.db w.clients → current_epoch w < w.db.next_id
  unfolding current_epoch
  epoch-fresh w c =
      let before =
        pending-IsBefore w.db.next_id w.clients
          (All-weaken _ _ w.clients (λ x s. served_locks w.db x c.started s) c.served) in
      elim (Option-cases (pending w.clients)) [
        | inl idle ↦ rw idle (max_id-fresh ev w.db w.db.event c.started c.valid c.logged)
        | inr (p, held) ↦ rw held (rw held at before)
      ]

  pub epoch-IsFrom : (w : World E) → IsFrom (current_epoch w) (pending w.clients)
  unfolding current_epoch
  epoch-IsFrom w = elim (Option-cases (pending w.clients)) [
    | inl idle ↦ rw idle tt
    | inr (p, held) ↦ rw held (omega arith)
  ]

  -- In a consistent store, whatever the clients do later, in any order, the table `event` keeps exactly
  -- the events, in their order, whose id is at most the epoch that the store has now: none of those that
  -- are staged or not yet staged gets such an id.
  pub run-up_to :
      (w : World E) (actions : List (ℕ × Action E))
      → IsConsistent ev w.db w.clients
      → up_to (current_epoch w) (run ev w actions).db.event ≡ up_to (current_epoch w) w.db.event
  run-up_to w actions c =
      let n = current_epoch w in
      let held = pending-IsFrom n w.clients (epoch-IsFrom w) in
      (run-IsPast ev n w.db.event w actions (record { ahead = epoch-fresh w c; past = refl })
        (All-weaken _ _ w.clients (λ x h. served-IsLater w.db n x h.0 h.1)
          (All-zip _ _ w.clients c.served held))).past
