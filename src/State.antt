-- ===== src/State.antt =====
-- States, state parts and multi-states: disintegrate/src/state.rs. A tuple of n state parts, which
-- the source's macros spell out for each n, is built by `single` and `pair`; `none` is a panic.
pub mod Part
pub mod Multi
pub mod Tuple
pub mod Snapshots
pub mod Counters
use Prim.Native.Nat.{max}
use disintegrate.Prelude.{
  ◌≡◌, ℕ, ◌+◌, ◌%◌, ◌^◌, String, Bool, Option, none, some, List, [], ◌∷◌, ◌>>=◌, if◌then◌else◌,
}
use disintegrate.Event.{EventId, Event, PersistedEvent}
use disintegrate.Stream.Query
use disintegrate.Stream.Query.{StreamQuery}

-- The traits `StateQuery` and `StateMutate` of a state `S` with the events `QE`, and the conversion
-- `TryFrom<E>` of the store's events into `QE`.
pub record StateMutate (S QE E : Type 0) : Type 0 where
  pub name : String
  pub query : S → StreamQuery
  pub try_into : E → Option QE
  pub mutate : S → QE → Option S

-- A derived query reads the identifier fields alone, which no event changes.
pub record KeepsQuery {S QE E : Type 0} (sm : StateMutate S QE E) : Type 0 where
  pub kept : (s s' : S) (e : QE) → sm.mutate s e ≡ some s' → sm.query s' ≡ sm.query s

pub record StatePart (S : Type 0) : Type 0 where
  pub version : EventId
  pub applied_events : ℕ
  pub inner : S

-- `StatePart::new`
unfoldable pub new : {S : Type 0} → EventId → S → StatePart S
new version payload = record { version = version; applied_events = 0; inner = payload }

module _ {S QE E : Type 0} (sm : StateMutate S QE E) (ev : Event E) where
  unfoldable pub query_part : StatePart S → StreamQuery
  query_part p = Query.change_origin p.version (sm.query p.inner)

  unfoldable pub matches_event : StatePart S → PersistedEvent E → Bool
  unfolding query_part
  matches_event p e = Query.matches ev (Query.cast (query_part p)) e

  -- The counter is a `u64`.
  unfoldable pub mutate_part : StatePart S → PersistedEvent E → Option (StatePart S)
  mutate_part p e = do
    event ← sm.try_into e.event
    inner ← sm.mutate p.inner event
    some
        (record { version = e.id; applied_events = (p.applied_events + 1) % 2 ^ 64; inner = inner })

  -- One `if state.matches_event(&event) { state.mutate_part(event.clone()) }` of `mutate_all`.
  unfoldable pub mutate_matching : StatePart S → PersistedEvent E → Option (StatePart S)
  unfolding matches_event mutate_part
  mutate_matching p e = if matches_event p e then mutate_part p e else some p

-- The traits `MultiState`, `IntoStatePart` and `IntoState` of a group `M` of state parts over the
-- states `S`.
pub record MultiState (S M E : Type 0) : Type 0 where
  pub mutate_all : M → PersistedEvent E → Option M
  pub query_all : M → StreamQuery
  pub version : M → EventId
  pub into_state_part : S → M
  pub into_state : M → S

-- The tuple of one state part.
unfoldable pub single :
    {S QE E : Type 0} → StateMutate S QE E → Event E → MultiState S (StatePart S) E
unfolding mutate_matching query_part new
single sm ev = record {
  mutate_all = mutate_matching sm ev;
  query_all = λ p. Query.cast (query_part sm ev p);
  version = λ p. p.version;
  into_state_part = λ s. new 0 s;
  into_state = λ p. p.inner;
}

-- A tuple with one more state part at its end.
unfoldable pub pair :
    {S M S' QE E : Type 0}
    → MultiState S M E
    → StateMutate S' QE E
    → Event E
    → MultiState (S × S') (M × StatePart S') E
unfolding mutate_matching query_part new
pair ms sm ev = record {
  mutate_all = λ m e. do
    first ← ms.mutate_all m.0 e
    last ← mutate_matching sm ev m.1 e
    some (first, last);
  query_all = λ m. Query.union (ms.query_all m.0) (query_part sm ev m.1);
  version = λ m. max m.1.version (ms.version m.0);
  into_state_part = λ s. (ms.into_state_part s.0, new 0 s.1);
  into_state = λ m. (ms.into_state m.0, m.1.inner);
}

-- The events of a stream, one after the other.
unfoldable pub mutate_each :
    {S M E : Type 0} → MultiState S M E → M → List (PersistedEvent E) → Option M
mutate_each ms m [] = some m
mutate_each ms m (e ∷ es) = ms.mutate_all m e >>= λ m'. mutate_each ms m' es
