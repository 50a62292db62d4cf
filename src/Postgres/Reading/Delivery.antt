-- ===== src/Postgres/Reading/Delivery.antt =====
-- About what `stream` of disintegrate-postgres/src/event_store.rs delivers.
use disintegrate.Prelude.{
  ℕ, ◌≤◌, ◌<◌, ◌≡◌, refl, ap, sym, ◌∙◌, Bool, true, false, ◌&&◌, Option, none, some, List, [], ◌∷◌,
  map, filter, leb, is_empty, All, All-weaken, arith, Bool-cases, Option-cases, inl, inr,
}
use disintegrate.Prelude.Result.{ok}
use disintegrate.Event.{EventId, EventInfo, EventSchema, Event, PersistedEvent, event_info}
use disintegrate.EventStore.{Increasing}
use disintegrate.Stream.Filter.{StreamFilter}
use disintegrate.Stream.Query
use disintegrate.Stream.Query.{StreamQuery}
use disintegrate.Postgres.Criteria.{Group, groups, kept_events}
use disintegrate.Postgres.Criteria.Rows.{Row, holds, row_of}
use disintegrate.Postgres.Criteria.Exact.{holds_lem}
use disintegrate.Postgres.Criteria.Agreement.{holds_complete}
use disintegrate.Postgres.Criteria.Text.{IsPlain}
use disintegrate.Postgres.Append.{Database, has_text, is_true, parses}
use disintegrate.Postgres.Session.{World, Action, run, current_epoch}
use disintegrate.Postgres.Session.Consistent.{IsConsistent}
use disintegrate.Postgres.Session.Epoch.{up_to, run-up_to}
use disintegrate.Postgres.Session.Single.{IsSingle, count_id}
use disintegrate.Postgres.Reading.{order_by_id, is_selected, deliver, stream}
use disintegrate.Postgres.Reading.Order.{
  order-Increasing, All-order, Increasing-filter, count_id-filter, order-filter,
}

filter-and :
    {E : Type 0} (p q : PersistedEvent E → Bool) (xs : List (PersistedEvent E))
    → filter (λ e. p e && q e) xs ≡ filter q (filter p xs)
filter-and p q [] = refl
filter-and p q (x ∷ xs) = ground (arith, filter-and p q xs)

-- What a filter keeps, a second one keeps that holds of it.
pub filter_within :
    {E : Type 0} (p q : PersistedEvent E → Bool) (xs : List (PersistedEvent E))
    → ((e : PersistedEvent E) → 0 < e.id → p e ≡ true → q e ≡ true)
    → All (λ e. 0 < e.id) xs
    → filter p (filter q xs) ≡ filter p xs
filter_within p q [] within above = refl
filter_within p q (x ∷ xs) within above = elim (Bool-cases (p x)) [
  | inl y ↦ let also = within x above.0 y in ground (arith, filter_within p q xs within above.1)
  | inr n ↦ ground (arith, filter_within p q xs within above.1)
]

All-filter :
    {E : Type 0} (P : PersistedEvent E → Type 0) (p : PersistedEvent E → Bool)
    (xs : List (PersistedEvent E))
    → All P xs
    → All P (filter p xs)
All-filter P p [] h = tt
All-filter P p (x ∷ xs) h = elim (Bool-cases (p x)) [
  | inl y ↦ rw y (h.0, All-filter P p xs h.1)
  | inr n ↦ rw n (All-filter P p xs h.1)
]

up_to-All :
    {E : Type 0} (n : EventId) (xs : List (PersistedEvent E)) → All (λ e. e.id ≤ n) (up_to n xs)
up_to-All n [] = tt
up_to-All n (x ∷ xs) = elim (Bool-cases (leb x.id n)) [
  | inl y ↦ rw y (ground arith, up_to-All n xs)
  | inr m ↦ rw m (up_to-All n xs)
]

pub Increasing-above :
    {E : Type 0} (lo : EventId) (xs : List (PersistedEvent E))
    → Increasing lo xs
    → All (λ e. lo < e.id) xs
Increasing-above lo [] h = tt
Increasing-above lo (x ∷ xs) h =
    (h.0, All-weaken _ _ xs (λ e lt. omega (arith, h.0, lt)) (Increasing-above x.id xs h.1))

-- The log that the store shows: the events up to the epoch, in the order of their ids.
abbrev pub log : {E : Type 0} → World E → List (PersistedEvent E)
log w = order_by_id (up_to (current_epoch w) w.db.event)

module _ {E : Type 0} (ev : Event E) (schema : EventSchema) where
  module _ {Q : Type 0} (try_into : E → Option Q) where
    stream-up_to :
        (n : EventId) (db db' : Database E) (query : StreamQuery)
        → up_to n db'.event ≡ up_to n db.event
        → stream ev schema try_into n db' query ≡ stream ev schema try_into n db query
    unfolding stream
    stream-up_to n db db' query same = elim (Option-cases (groups schema query.filters)) [
      | inl unknown ↦ rw unknown refl
      | inr (gs, built) ↦
          let selects : PersistedEvent E → Bool = λ e. is_true (holds (row_of ev e) gs) in
          let alike : filter (is_selected ev schema try_into n gs) db'.event
              ≡ filter (is_selected ev schema try_into n gs) db.event =
            filter-and (λ e. leb e.id n) selects db'.event
            ∙ ap (filter selects) same
            ∙ sym (filter-and (λ e. leb e.id n) selects db.event) in
          rw (built, alike) refl
    ]

    -- In a consistent store, `stream` delivers the same whatever the clients do, in any order, after it
    -- has read the epoch and before it reads the events.
    stream-run :
        (w : World E) (actions : List (ℕ × Action E)) (query : StreamQuery)
        → IsConsistent ev w.db w.clients
        → stream ev schema try_into (current_epoch w) (run ev w actions).db query
          ≡ stream ev schema try_into (current_epoch w) w.db query
    stream-run w actions query c =
        stream-up_to (current_epoch w) w.db (run ev w actions).db query (run-up_to ev w actions c)

  deliver_all : (es : List (PersistedEvent E)) → deliver ev schema some es ≡ map ok es
  deliver_all [] = refl
  deliver_all (e ∷ es) = ap (◌∷◌ (ok e)) (deliver_all es)

  holds-parses :
      (row : Row) (gs : List Group) (b : Bool)
      → IsPlain gs
      → holds row gs ≡ some b
      → parses gs ≡ true
  unfolding holds
  holds-parses row [] b plain h = absurd (cc h)
  holds-parses row (g ∷ []) b plain h = elim (Bool-cases (has_text g.after g.tests)) [
    | inl y ↦ ground arith
    | inr n ↦ ground arith
  ]
  holds-parses row (g ∷ g' ∷ gs) b plain h = elim (Option-cases (holds row (g' ∷ gs))) [
    | inl fails ↦ absurd (ground arith)
    | inr (b', goes_on) ↦
        ground (arith, holds-parses row (g' ∷ gs) b' (ground (arith, plain)) goes_on)
  ]

  module _ (f : StreamFilter) (fs : List StreamFilter) (gs : List Group)
      (some_event : All (λ g. is_empty (kept_events g) ≡ false) (f ∷ fs))
      (built : groups schema (f ∷ fs) ≡ some gs) (plain : IsPlain gs) where
    criteria_parse : parses gs ≡ true
    criteria_parse =
        let row : Row = record { event_id = 0; event_type = ""; column = λ i. none } in
        holds-parses row gs _ plain (holds_lem schema row f fs gs some_event built)

    abbrev selects : PersistedEvent E → Bool
    selects e = is_true (holds (row_of ev e) gs)

    stored : (w : World E) → IsConsistent ev w.db w.clients → All (λ e. 0 < e.id) w.db.event
    stored w c = All-weaken _ _ w.db.event (λ e h. h.4) c.logged

    once :
        (w : World E)
        → IsSingle w.db w.clients
        → (n : EventId) → count_id n (up_to (current_epoch w) w.db.event) ≤ 1
    once w s n =
        omega (arith, s.once n, count_id-filter (λ e. leb e.id (current_epoch w)) n w.db.event)

    log-Increasing :
        (w : World E)
        → IsConsistent ev w.db w.clients
        → IsSingle w.db w.clients
        → Increasing 0 (log w)
    log-Increasing w c s =
        order-Increasing 0 (up_to (current_epoch w) w.db.event)
          (All-filter _ _ w.db.event (stored w c)) (once w s)

    streams :
        (w : World E)
        → IsConsistent ev w.db w.clients
        → IsSingle w.db w.clients
        → stream ev schema some (current_epoch w) w.db (record { filters = f ∷ fs })
          ≡ map ok (filter selects (log w))
    unfolding stream
    streams w c s =
        let shape : order_by_id
              (filter (is_selected ev schema some (current_epoch w) gs) w.db.event)
            ≡ filter selects (log w) =
          ap order_by_id (filter-and (λ e. leb e.id (current_epoch w)) selects w.db.event)
          ∙ order-filter selects 0 (up_to (current_epoch w) w.db.event)
              (All-filter _ _ w.db.event (stored w c)) (once w s) in
        rw (built, criteria_parse, shape) (deliver_all (filter selects (log w)))

    pub stream_lem :
        (w : World E) (between : List (ℕ × Action E))
        → ((event : E) → (info : EventInfo) × (event_info schema (ev.name event) ≡ some info))
        → IsConsistent ev w.db w.clients
        → IsSingle w.db w.clients
        → (events : List (PersistedEvent E)) × (stream ev schema some
              (current_epoch w)
              (run ev w between).db
              (record { filters = f ∷ fs })
            ≡ map ok events)
          × Increasing 0 events
          × All (λ e. e.id ≤ current_epoch w) events
          × (filter (Query.matches ev (record { filters = f ∷ fs })) events
              ≡ filter (Query.matches ev (record { filters = f ∷ fs })) (log w))
    stream_lem w between known c s =
        let ordered = log-Increasing w c s in
        (
          filter selects (log w),
          stream-run some w between (record { filters = f ∷ fs }) c ∙ streams w c s,
          Increasing-filter selects 0 (log w) ordered,
          All-filter _ selects (log w) (All-order _ _ (up_to-All (current_epoch w) w.db.event)),
          filter_within (Query.matches ev (record { filters = f ∷ fs })) selects (log w)
              (λ e stored m.
                let (info, is_known) = known e.event in
                let selected =
                  holds_complete schema ev e stored f fs gs some_event built info is_known m in
                rw selected refl)
              (Increasing-above 0 (log w) ordered),
        )
